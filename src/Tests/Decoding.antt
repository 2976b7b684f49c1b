-- ===== src/Tests/Decoding.antt =====
-- The theorems on the decoder and on the limits of offsets at the instruction `call rel`.
use cairo_vm.Base.{none, ◌≡◌, arith}
use cairo_vm.Base.Result.{ok}
use cairo_vm.Decoder.{decode_instruction}
use cairo_vm.Decoder.Encode.{encode_instruction, IsCanonical}
use cairo_vm.Decoder.RoundTrip.{decode-encode_inverse, encode-decode_inverse}
use cairo_vm.Vm.Step.{update_rc_limits, biased}
use cairo_vm.Vm.Limits.{Enclosing, update_rc_limits-Enclosing}
use cairo_vm.Tests.Machine.{call_instruction, decode_call}

decode-encode_inverse_example :
    (encode_instruction call_instruction ≡ 0x1104800180018000) × IsCanonical call_instruction
decode-encode_inverse_example =
    decode-encode_inverse 0x1104800180018000 call_instruction (omega arith) decode_call

call_instruction-IsCanonical : IsCanonical call_instruction
call_instruction-IsCanonical =
    (decode-encode_inverse 0x1104800180018000 call_instruction (omega arith) decode_call).1

encode-decode_inverse_example :
    decode_instruction (encode_instruction call_instruction) ≡ ok call_instruction
encode-decode_inverse_example = encode-decode_inverse call_instruction call_instruction-IsCanonical

update_rc_limits-Enclosing_example :
    Enclosing
      (biased call_instruction.off0, biased call_instruction.off0)
      (update_rc_limits none call_instruction)
      call_instruction
update_rc_limits-Enclosing_example = update_rc_limits-Enclosing none call_instruction
