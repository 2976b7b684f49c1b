-- ===== src/Decoder.antt =====
-- vm/src/vm/decoding/decoder.rs: `decode_instruction`. A contiguous mask and a shift are written
-- as a division and a remainder.
pub mod Encode
pub mod RoundTrip
use cairo_vm.Base.{
  ℕ, ◌+◌, ◌-◌, ◌/◌, ◌%◌, ◌^◌, ltb, ◌==◌, if◌then◌else◌, true, false, Option, none, some, Bool, ◌&&◌,
  ◌||◌,
}
use cairo_vm.Base.Int.{ℤ, pos, negsuc}
use cairo_vm.Base.Result.{Result, ok, err, ◌>>=◌, ◌>>◌, guard}
use cairo_vm.Types.Instruction.{
  Register, Op1Addr, Res, PcUpdate, ApUpdate, FpUpdate, Opcode, Instruction,
}
use cairo_vm.Types.Errors.{VirtualMachineError}

-- `(w & mask) >> offset` for a mask of `width` bits from `offset` on.
abbrev pub bits : ℕ → ℕ → ℕ → ℕ
bits w offset width = w / 2 ^ offset % 2 ^ width

-- The 16 low bits less 2^15 with wrap-around, read as an `i16`.
unfoldable pub decode_offset : ℕ → ℤ
decode_offset offset =
    let o = (offset % 2 ^ 16 + 2 ^ 16 - 2 ^ 15) % 2 ^ 16 in
    if ltb o (2 ^ 15) then pos o else negsuc (2 ^ 16 - o - 1)

abbrev pub register : ℕ → Register
register n = if n == 1 then Register.fp else Register.ap

abbrev pub op1_addr_of : ℕ → Result VirtualMachineError Op1Addr
op1_addr_of n =
    if n == 0
    then ok Op1Addr.op0
    else if n == 1
    then ok Op1Addr.imm
    else if n == 2
    then ok Op1Addr.fp
    else if n == 4
    then ok Op1Addr.ap
    else err (VirtualMachineError.invalid_op1_reg n)

abbrev pub pc_update_of : ℕ → Result VirtualMachineError PcUpdate
pc_update_of n =
    if n == 0
    then ok PcUpdate.regular
    else if n == 1
    then ok PcUpdate.jump
    else if n == 2
    then ok PcUpdate.jump_rel
    else if n == 4
    then ok PcUpdate.jnz
    else err (VirtualMachineError.invalid_pc_update n)

-- With no logic for the result, a conditional jump leaves it unconstrained.
abbrev pub plain_res : PcUpdate → Res
plain_res PcUpdate.jnz = Res.unconstrained
plain_res _ = Res.op1

abbrev pub res_of : ℕ → PcUpdate → Result VirtualMachineError Res
res_of n pc =
    if n == 0
    then ok (plain_res pc)
    else if n == 1
    then ok Res.add
    else if n == 2
    then ok Res.mul
    else err (VirtualMachineError.invalid_res n)

abbrev pub opcode_of : ℕ → Result VirtualMachineError Opcode
opcode_of n =
    if n == 0
    then ok Opcode.nop
    else if n == 1
    then ok Opcode.call
    else if n == 2
    then ok Opcode.ret
    else if n == 4
    then ok Opcode.assert_eq
    else err (VirtualMachineError.invalid_opcode n)

abbrev pub plain_ap : Opcode → ApUpdate
plain_ap Opcode.call = ApUpdate.add2
plain_ap _ = ApUpdate.regular

abbrev pub ap_update_of : ℕ → Opcode → Result VirtualMachineError ApUpdate
ap_update_of n opcode =
    if n == 0
    then ok (plain_ap opcode)
    else if n == 1
    then ok ApUpdate.add
    else if n == 2
    then ok ApUpdate.add1
    else err (VirtualMachineError.invalid_ap_update n)

abbrev pub fp_update_of : Opcode → FpUpdate
fp_update_of Opcode.call = FpUpdate.ap_plus2
fp_update_of Opcode.ret = FpUpdate.dst
fp_update_of _ = FpUpdate.regular

-- The flags start at bit 48 of the word: register bits, op1, result, pc, ap and opcode.
unfoldable pub decode_flags : ℕ → (off0 off1 off2 : ℤ) → Result VirtualMachineError Instruction
decode_flags flags off0 off1 off2 = do
  op1 ← op1_addr_of (bits flags 2 3)
  pc ← pc_update_of (bits flags 7 3)
  res ← res_of (bits flags 5 2) pc
  opcode ← opcode_of (bits flags 12 3)
  ap ← ap_update_of (bits flags 10 2) opcode
  ok (record {
    off0 = off0;
    off1 = off1;
    off2 = off2;
    dst_register = register (bits flags 0 1);
    op0_register = register (bits flags 1 1);
    op1_addr = op1;
    res = res;
    pc_update = pc;
    ap_update = ap;
    fp_update = fp_update_of opcode;
    opcode = opcode;
  })

unfoldable pub decode_instruction : ℕ → Result VirtualMachineError Instruction
unfolding decode_offset decode_flags
decode_instruction w =
    if bits w 63 1 == 0
    then decode_flags (w / 2 ^ 48) (decode_offset (bits w 0 16)) (decode_offset (bits w 16 16))
        (decode_offset (bits w 32 16))
    else err VirtualMachineError.instruction_non_zero_high_bit
