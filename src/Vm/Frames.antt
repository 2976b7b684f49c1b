-- ===== src/Vm/Frames.antt =====
-- The instructions `call` and `ret` as the compiler writes them, and the addresses of
-- vm/src/vm/context/run_context.rs that they use.
use cairo_vm.Base.{ℕ, ◌+◌, ◌<◌, ◌≡◌, Option, arith, word}
use cairo_vm.Base.Int.{pos, negsuc}
use cairo_vm.Base.Result.{ok}
use cairo_vm.Types.Value.{rel, MaybeRelocatable}
use cairo_vm.Types.Relocatable.{add_offset, sub_offset}
use cairo_vm.Types.Instruction.{Instruction, Opcode, Res, Register, Op1Addr, FpUpdate, PcUpdate}
use cairo_vm.RunContext.{
  RunContext, compute_dst_addr, compute_op0_addr, compute_op1_addr, offset_by,
}

-- `call`, as the compiler writes it: the frame goes to `[ap]` and `[ap + 1]`.
pub record IsCall (i : Instruction) : Type 0 where
  pub opcode : i.opcode ≡ Opcode.call
  pub fp_update : i.fp_update ≡ FpUpdate.ap_plus2
  pub dst_register : i.dst_register ≡ Register.ap
  pub off0 : i.off0 ≡ pos 0
  pub op0_register : i.op0_register ≡ Register.ap
  pub off1 : i.off1 ≡ pos 1

-- `ret`: the frame is read at `[fp - 2]` and `[fp - 1]`.
pub record IsRet (i : Instruction) : Type 0 where
  pub fp_update : i.fp_update ≡ FpUpdate.dst
  pub pc_update : i.pc_update ≡ PcUpdate.jump
  pub res : i.res ≡ Res.op1
  pub dst_register : i.dst_register ≡ Register.fp
  pub off0 : i.off0 ≡ negsuc 1
  pub op0_register : i.op0_register ≡ Register.fp
  pub off1 : i.off1 ≡ negsuc 0
  pub op1_addr : i.op1_addr ≡ Op1Addr.fp
  pub off2 : i.off2 ≡ negsuc 0

pub call_dst_addr :
    (c : RunContext) (i : Instruction)
    → IsCall i
    → c.ap < word
    → compute_dst_addr c i ≡ ok (rel (pos 1) c.ap)
unfolding compute_dst_addr offset_by add_offset
call_dst_addr c i s h = rw (s.dst_register, s.off0) (ground arith)

pub call_op0_addr :
    (c : RunContext) (i : Instruction)
    → IsCall i
    → c.ap + 1 < word
    → compute_op0_addr c i ≡ ok (rel (pos 1) (c.ap + 1))
unfolding compute_op0_addr offset_by add_offset
call_op0_addr c i s h = rw (s.op0_register, s.off1) (ground arith)

pub ret_dst_addr :
    (c : RunContext) (i : Instruction) (n : ℕ)
    → IsRet i
    → c.fp ≡ n + 2
    → compute_dst_addr c i ≡ ok (rel (pos 1) n)
unfolding compute_dst_addr offset_by sub_offset
ret_dst_addr c i n s h = rw (s.dst_register, s.off0, h) (ground arith)

pub ret_op0_addr :
    (c : RunContext) (i : Instruction) (n : ℕ)
    → IsRet i
    → c.fp ≡ n + 2
    → compute_op0_addr c i ≡ ok (rel (pos 1) (n + 1))
unfolding compute_op0_addr offset_by sub_offset
ret_op0_addr c i n s h = rw (s.op0_register, s.off1, h) (ground arith)

pub ret_op1_addr :
    (c : RunContext) (i : Instruction) (op0 : Option MaybeRelocatable) (n : ℕ)
    → IsRet i
    → c.fp ≡ n + 2
    → compute_op1_addr c i op0 ≡ ok (rel (pos 1) (n + 1))
unfolding compute_op1_addr offset_by sub_offset
ret_op1_addr c i op0 n s h = rw (s.op1_addr, s.off2, h) (ground arith)
