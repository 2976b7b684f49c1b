-- ===== src/Types/Instruction.antt =====
-- vm/src/types/instruction.rs: the decoded instruction.
use cairo_vm.Base.{ℕ}
use cairo_vm.Base.Int.{ℤ}

pub data Register : Type 0 where
  ap fp : Register

pub data Op1Addr : Type 0 where
  imm ap fp op0 : Op1Addr

pub data Res : Type 0 where
  op1 add mul unconstrained : Res

pub data PcUpdate : Type 0 where
  regular jump jump_rel jnz : PcUpdate

pub data ApUpdate : Type 0 where
  regular add add1 add2 : ApUpdate

pub data FpUpdate : Type 0 where
  regular ap_plus2 dst : FpUpdate

pub data Opcode : Type 0 where
  nop assert_eq call ret : Opcode

pub record Instruction : Type 0 where
  pub off0 : ℤ
  pub off1 : ℤ
  pub off2 : ℤ
  pub dst_register : Register
  pub op0_register : Register
  pub op1_addr : Op1Addr
  pub res : Res
  pub pc_update : PcUpdate
  pub ap_update : ApUpdate
  pub fp_update : FpUpdate
  pub opcode : Opcode

abbrev size_of : Op1Addr → ℕ
size_of Op1Addr.imm = 2
size_of _ = 1

-- `Instruction::size`: an immediate takes a second word.
unfoldable pub size : Instruction → ℕ
size i = size_of i.op1_addr
