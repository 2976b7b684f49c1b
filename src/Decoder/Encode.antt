-- ===== src/Decoder/Encode.antt =====
-- A reference encoding of instructions, and that `decode_instruction` of
-- vm/src/vm/decoding/decoder.rs inverts it.
use cairo_vm.Base.{ℕ, ◌+◌, ◌-◌, ◌*◌, ◌/◌, ◌^◌, ◌<◌, ◌≡◌, arith}
use cairo_vm.Base.Int.{ℤ, pos, negsuc}
use cairo_vm.Base.Result.{ok}
use cairo_vm.Types.Instruction.{Register, Op1Addr, Res, PcUpdate, ApUpdate, Opcode, Instruction}
use cairo_vm.Decoder.{
  bits, decode_offset, register, op1_addr_of, pc_update_of, res_of, opcode_of, ap_update_of,
  fp_update_of,
}

-- An offset is stored with a bias of 2^15.
unfoldable pub encode_offset : ℤ → ℕ
encode_offset (pos n) = n + 2 ^ 15
encode_offset (negsuc n) = 2 ^ 15 - (n + 1)

abbrev pub register_bit : Register → ℕ
register_bit Register.ap = 0
register_bit Register.fp = 1

abbrev pub op1_bits : Op1Addr → ℕ
op1_bits Op1Addr.op0 = 0
op1_bits Op1Addr.imm = 1
op1_bits Op1Addr.fp = 2
op1_bits Op1Addr.ap = 4

abbrev pub res_bits : Res → ℕ
res_bits Res.add = 1
res_bits Res.mul = 2
res_bits _ = 0

abbrev pub pc_bits : PcUpdate → ℕ
pc_bits PcUpdate.regular = 0
pc_bits PcUpdate.jump = 1
pc_bits PcUpdate.jump_rel = 2
pc_bits PcUpdate.jnz = 4

abbrev pub ap_bits : ApUpdate → ℕ
ap_bits ApUpdate.add = 1
ap_bits ApUpdate.add1 = 2
ap_bits _ = 0

abbrev pub opcode_bits : Opcode → ℕ
opcode_bits Opcode.nop = 0
opcode_bits Opcode.call = 1
opcode_bits Opcode.ret = 2
opcode_bits Opcode.assert_eq = 4

unfoldable pub encode_flags : Instruction → ℕ
encode_flags i =
    register_bit i.dst_register
    + 2 * register_bit i.op0_register
    + 4 * op1_bits i.op1_addr
    + 32 * res_bits i.res
    + 128 * pc_bits i.pc_update
    + 1024 * ap_bits i.ap_update
    + 4096 * opcode_bits i.opcode

unfoldable pub encode_instruction : Instruction → ℕ
unfolding encode_offset encode_flags
encode_instruction i =
    encode_offset i.off0
    + 2 ^ 16 * encode_offset i.off1
    + 2 ^ 32 * encode_offset i.off2
    + 2 ^ 48 * encode_flags i

-- The range of an `i16`.
abbrev pub IsOffset : ℤ → Type 0
IsOffset (pos n) = n < 2 ^ 15
IsOffset (negsuc n) = n < 2 ^ 15

-- What decoding guarantees: offsets of 16 bits, and fields that depend on the others.
pub record IsCanonical (i : Instruction) : Type 0 where
  pub off0 : IsOffset i.off0
  pub off1 : IsOffset i.off1
  pub off2 : IsOffset i.off2
  pub res : res_of (res_bits i.res) i.pc_update ≡ ok i.res
  pub ap : ap_update_of (ap_bits i.ap_update) i.opcode ≡ ok i.ap_update
  pub fp : i.fp_update ≡ fp_update_of i.opcode

pub encode-decode_offset : (o : ℕ) → o < 2 ^ 16 → encode_offset (decode_offset o) ≡ o
unfolding encode_offset decode_offset
encode-decode_offset o h = ground arith

pub decode_offset-IsOffset : (o : ℕ) → IsOffset (decode_offset o)
unfolding decode_offset
decode_offset-IsOffset o = ground arith

pub decode-encode_offset : (z : ℤ) → IsOffset z → decode_offset (encode_offset z) ≡ z
unfolding encode_offset decode_offset
decode-encode_offset (pos n) h = ground arith
decode-encode_offset (negsuc n) h = ground arith

pub encode_offset-lt : (z : ℤ) → IsOffset z → encode_offset z < 2 ^ 16
unfolding encode_offset
encode_offset-lt (pos n) h = omega arith
encode_offset-lt (negsuc n) h = omega arith

-- Each field's decoding is inverted by its encoding.
pub register_bit-register : (n : ℕ) → n < 2 → register_bit (register n) ≡ n
register_bit-register n h = ground arith

pub op1_bits-of : (n : ℕ) (x : Op1Addr) → op1_addr_of n ≡ ok x → op1_bits x ≡ n
op1_bits-of n x h = ground arith

pub pc_bits-of : (n : ℕ) (x : PcUpdate) → pc_update_of n ≡ ok x → pc_bits x ≡ n
pc_bits-of n x h = ground arith

pub res_bits-of : (n : ℕ) (pc : PcUpdate) (x : Res) → res_of n pc ≡ ok x → res_bits x ≡ n
res_bits-of n pc x h = ground arith

pub opcode_bits-of : (n : ℕ) (x : Opcode) → opcode_of n ≡ ok x → opcode_bits x ≡ n
opcode_bits-of n x h = ground arith

pub ap_bits-of : (n : ℕ) (o : Opcode) (x : ApUpdate) → ap_update_of n o ≡ ok x → ap_bits x ≡ n
ap_bits-of n o x h = ground arith

-- And the other way round.
pub op1_addr_of-bits : (x : Op1Addr) → op1_addr_of (op1_bits x) ≡ ok x
op1_addr_of-bits x = ground arith

pub pc_update_of-bits : (x : PcUpdate) → pc_update_of (pc_bits x) ≡ ok x
pc_update_of-bits x = ground arith

pub opcode_of-bits : (x : Opcode) → opcode_of (opcode_bits x) ≡ ok x
opcode_of-bits x = ground arith

pub register-register_bit : (x : Register) → register (register_bit x) ≡ x
register-register_bit x = ground arith

-- Fifteen flag bits are the sum of their fields.
pub flags_split :
    (f : ℕ)
    → f < 2 ^ 15
    → bits f 0 1
        + 2 * bits f 1 1
        + 4 * bits f 2 3
        + 32 * bits f 5 2
        + 128 * bits f 7 3
        + 1024 * bits f 10 2
        + 4096 * bits f 12 3
      ≡ f
flags_split f h = omega arith

pub word_split :
    (w : ℕ)
    → bits w 0 16 + 2 ^ 16 * bits w 16 16 + 2 ^ 32 * bits w 32 16 + 2 ^ 48 * (w / 2 ^ 48) ≡ w
word_split w = omega arith
