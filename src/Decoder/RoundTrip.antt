-- ===== src/Decoder/RoundTrip.antt =====
-- `decode_instruction` of vm/src/vm/decoding/decoder.rs against the reference encoding.
use cairo_vm.Base.{
  ℕ, ◌+◌, ◌*◌, ◌/◌, ◌^◌, ◌<◌, ◌≡◌, refl, sym, ap, subst, ◌==◌, arith, Bool-cases, inl, inr, word,
}
use cairo_vm.Base.Int.{ℤ}
use cairo_vm.Base.Result.{ok, bind-ok-elim}
use cairo_vm.Types.Instruction.{Op1Addr, Res, PcUpdate, ApUpdate, Opcode, Instruction}
use cairo_vm.Decoder.{
  bits, decode_offset, register, op1_addr_of, pc_update_of, res_of, opcode_of, ap_update_of,
  fp_update_of, decode_flags, decode_instruction,
}
use cairo_vm.Decoder.Encode.{
  encode_offset, encode_flags, encode_instruction, register_bit, op1_bits, res_bits, pc_bits,
  ap_bits, opcode_bits, IsOffset, IsCanonical, encode-decode_offset, decode_offset-IsOffset,
  decode-encode_offset, encode_offset-lt, register_bit-register, op1_bits-of, pc_bits-of,
  res_bits-of, opcode_bits-of, ap_bits-of, op1_addr_of-bits, pc_update_of-bits, opcode_of-bits,
  register-register_bit, flags_split, word_split,
}

-- What decoding fifteen flag bits gives.
record FlagsDecoded (f : ℕ) (o0 o1 o2 : ℤ) (i : Instruction) : Type 0 where
  off0 : i.off0 ≡ o0
  off1 : i.off1 ≡ o1
  off2 : i.off2 ≡ o2
  flags : encode_flags i ≡ f
  res : res_of (res_bits i.res) i.pc_update ≡ ok i.res
  ap : ap_update_of (ap_bits i.ap_update) i.opcode ≡ ok i.ap_update
  fp : i.fp_update ≡ fp_update_of i.opcode

abbrev assembled : ℕ → (o0 o1 o2 : ℤ) → Op1Addr → PcUpdate → Res → Opcode → ApUpdate → Instruction
assembled f o0 o1 o2 op1 pc res opcode ap = record {
  off0 = o0;
  off1 = o1;
  off2 = o2;
  dst_register = register (bits f 0 1);
  op0_register = register (bits f 1 1);
  op1_addr = op1;
  res = res;
  pc_update = pc;
  ap_update = ap;
  fp_update = fp_update_of opcode;
  opcode = opcode;
}

assembled-FlagsDecoded :
    (f : ℕ) (o0 o1 o2 : ℤ) (op1 : Op1Addr) (pc : PcUpdate) (res : Res) (opcode : Opcode)
    (ap : ApUpdate)
    → f < 2 ^ 15
    → op1_addr_of (bits f 2 3) ≡ ok op1
    → pc_update_of (bits f 7 3) ≡ ok pc
    → res_of (bits f 5 2) pc ≡ ok res
    → opcode_of (bits f 12 3) ≡ ok opcode
    → ap_update_of (bits f 10 2) opcode ≡ ok ap
    → FlagsDecoded f o0 o1 o2 (assembled f o0 o1 o2 op1 pc res opcode ap)
unfolding encode_flags
assembled-FlagsDecoded f o0 o1 o2 op1 pc res opcode ap small e1 e2 e3 e4 e5 = record {
  off0 = refl;
  off1 = refl;
  off2 = refl;
  flags =
      rw
        (
          register_bit-register (bits f 0 1) (omega arith),
          register_bit-register (bits f 1 1) (omega arith),
          op1_bits-of (bits f 2 3) op1 e1,
          res_bits-of (bits f 5 2) pc res e3,
          pc_bits-of (bits f 7 3) pc e2,
          ap_bits-of (bits f 10 2) opcode ap e5,
          opcode_bits-of (bits f 12 3) opcode e4,
        )
        (flags_split f small);
  res = rw (res_bits-of (bits f 5 2) pc res e3) e3;
  ap = rw (ap_bits-of (bits f 10 2) opcode ap e5) e5;
  fp = refl;
}

decode_flags-FlagsDecoded :
    (f : ℕ) (o0 o1 o2 : ℤ) (i : Instruction)
    → f < 2 ^ 15
    → decode_flags f o0 o1 o2 ≡ ok i
    → FlagsDecoded f o0 o1 o2 i
unfolding decode_flags
decode_flags-FlagsDecoded f o0 o1 o2 i small h =
    bind-ok-elim (op1_addr_of (bits f 2 3)) _ h λ op1 e1 h1.
      bind-ok-elim (pc_update_of (bits f 7 3)) _ h1 λ pc e2 h2.
        bind-ok-elim (res_of (bits f 5 2) pc) _ h2 λ res e3 h3.
          bind-ok-elim (opcode_of (bits f 12 3)) _ h3 λ opcode e4 h4.
            bind-ok-elim (ap_update_of (bits f 10 2) opcode) _ h4 λ ap e5 h5.
              subst (FlagsDecoded f o0 o1 o2) (cc h5)
                (assembled-FlagsDecoded f o0 o1 o2 op1 pc res opcode ap small e1 e2 e3 e4 e5)

-- What decodes is the encoding of the instruction that it decodes to, so no two words decode to
-- one instruction; the offsets lie in the range of an `i16`, and the fields that the encoding
-- leaves implicit follow from the others.
pub decode-encode_inverse :
    (w : ℕ) (i : Instruction)
    → w < word
    → decode_instruction w ≡ ok i
    → (encode_instruction i ≡ w) × IsCanonical i
unfolding decode_instruction encode_instruction
decode-encode_inverse w i hw h = elim (Bool-cases (bits w 63 1 == 0)) [
  | inr high ↦ ground arith
  | inl low ↦
      let d =
        decode_flags-FlagsDecoded (w / 2 ^ 48) (decode_offset (bits w 0 16))
          (decode_offset (bits w 16 16)) (decode_offset (bits w 32 16)) i (ground arith)
          (rw low at h) in
      (
        rw
            (
              d.off0,
              d.off1,
              d.off2,
              d.flags,
              encode-decode_offset (bits w 0 16) (omega arith),
              encode-decode_offset (bits w 16 16) (omega arith),
              encode-decode_offset (bits w 32 16) (omega arith),
            )
            (word_split w),
        record {
          off0 = subst IsOffset (sym d.off0) (decode_offset-IsOffset (bits w 0 16));
          off1 = subst IsOffset (sym d.off1) (decode_offset-IsOffset (bits w 16 16));
          off2 = subst IsOffset (sym d.off2) (decode_offset-IsOffset (bits w 32 16));
          res = d.res;
          ap = d.ap;
          fp = d.fp;
        },
      )
]

-- The fields of a sum of shifted numbers that fit their widths.
flags_bits :
    (d e o r p a c : ℕ)
    → d < 2
    → e < 2
    → o < 8
    → r < 4
    → p < 8
    → a < 4
    → c < 8
    → let f = d + 2 * e + 4 * o + 32 * r + 128 * p + 1024 * a + 4096 * c in
      (bits f 0 1 ≡ d)
      × (bits f 1 1 ≡ e)
      × (bits f 2 3 ≡ o)
      × (bits f 5 2 ≡ r)
      × (bits f 7 3 ≡ p)
      × (bits f 10 2 ≡ a)
      × (bits f 12 3 ≡ c)
      × (f < 2 ^ 15)
flags_bits d e o r p a c hd he ho hr hp ha hc = omega arith

word_bits :
    (x y z f : ℕ)
    → x < 2 ^ 16
    → y < 2 ^ 16
    → z < 2 ^ 16
    → f < 2 ^ 15
    → let w = x + 2 ^ 16 * y + 2 ^ 32 * z + 2 ^ 48 * f in
      (bits w 0 16 ≡ x)
      × (bits w 16 16 ≡ y)
      × (bits w 32 16 ≡ z)
      × (w / 2 ^ 48 ≡ f)
      × (bits w 63 1 ≡ 0)
word_bits x y z f hx hy hz hf = omega arith

encode_flags_fields :
    (i : Instruction)
    → (encode_flags i < 2 ^ 15)
      × ((o0 o1 o2 : ℤ)
          → res_of (res_bits i.res) i.pc_update ≡ ok i.res
          → ap_update_of (ap_bits i.ap_update) i.opcode ≡ ok i.ap_update
          → i.fp_update ≡ fp_update_of i.opcode
          → decode_flags (encode_flags i) o0 o1 o2
            ≡ ok (record i { off0 = o0; off1 = o1; off2 = o2 }))
unfolding encode_flags decode_flags
encode_flags_fields i =
    let (b0, b1, b2, b3, b4, b5, b6, small) =
      flags_bits (register_bit i.dst_register) (register_bit i.op0_register) (op1_bits i.op1_addr)
        (res_bits i.res) (pc_bits i.pc_update) (ap_bits i.ap_update) (opcode_bits i.opcode)
        (ground arith) (ground arith) (ground arith) (ground arith) (ground arith) (ground arith)
        (ground arith) in
    (
      small,
      λ o0 o1 o2 hr ha hf. rw (
        b0,
        b1,
        b2,
        b3,
        b4,
        b5,
        b6,
        op1_addr_of-bits i.op1_addr,
        pc_update_of-bits i.pc_update,
        hr,
        opcode_of-bits i.opcode,
        ha,
        register-register_bit i.dst_register,
        register-register_bit i.op0_register,
        ← hf,
      ),
    )

-- Every instruction that decoding can give has an encoding, which decodes back to it.
pub encode-decode_inverse :
    (i : Instruction) → IsCanonical i → decode_instruction (encode_instruction i) ≡ ok i
unfolding decode_instruction encode_instruction
encode-decode_inverse i c =
    let (small, decoded) = encode_flags_fields i in
    let (x, y, z, f, high) =
      word_bits (encode_offset i.off0) (encode_offset i.off1) (encode_offset i.off2)
        (encode_flags i) (encode_offset-lt i.off0 c.off0) (encode_offset-lt i.off1 c.off1)
        (encode_offset-lt i.off2 c.off2) small in
    rw
      (
        high,
        f,
        x,
        y,
        z,
        decode-encode_offset i.off0 c.off0,
        decode-encode_offset i.off1 c.off1,
        decode-encode_offset i.off2 c.off2,
      )
      (decoded i.off0 i.off1 i.off2 c.res c.ap c.fp)
