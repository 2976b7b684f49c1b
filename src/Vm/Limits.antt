-- ===== src/Vm/Limits.antt =====
-- The limits of the offsets that vm/src/vm/vm_core.rs records for the range check.
use cairo_vm.Base.{◌+◌, ◌≤◌, Option, arith}
use cairo_vm.Base.Int.{ℤ, pos, negsuc, pos_part, neg_part, min_ℤ, max_ℤ}
use cairo_vm.Types.Instruction.{Instruction}
use cairo_vm.Vm.Step.{update_rc_limits, biased, limits_or}

-- The order of the integers.
abbrev pub Below : ℤ → ℤ → Type 0
Below a b = pos_part a + neg_part b ≤ pos_part b + neg_part a

min_ℤ-Below : (a b : ℤ) → Below (min_ℤ a b) a × Below (min_ℤ a b) b
min_ℤ-Below (pos a) (pos b) = (ground arith, ground arith)
min_ℤ-Below (pos a) (negsuc b) = (ground arith, ground arith)
min_ℤ-Below (negsuc a) (pos b) = (ground arith, ground arith)
min_ℤ-Below (negsuc a) (negsuc b) = (ground arith, ground arith)

max_ℤ-Below : (a b : ℤ) → Below a (max_ℤ a b) × Below b (max_ℤ a b)
max_ℤ-Below (pos a) (pos b) = (ground arith, ground arith)
max_ℤ-Below (pos a) (negsuc b) = (ground arith, ground arith)
max_ℤ-Below (negsuc a) (pos b) = (ground arith, ground arith)
max_ℤ-Below (negsuc a) (negsuc b) = (ground arith, ground arith)

-- The limits are below and above a value.
abbrev Encloses : ℤ × ℤ → ℤ → Type 0
Encloses l x = Below l.0 x × Below x l.1

-- The new limits enclose the biased offsets of the instruction and the limits before.
pub record Enclosing (before after : ℤ × ℤ) (i : Instruction) : Type 0 where
  pub low : Below after.0 before.0
  pub high : Below before.1 after.1
  pub off0 : Encloses after (biased i.off0)
  pub off1 : Encloses after (biased i.off1)
  pub off2 : Encloses after (biased i.off2)

-- The limits after an instruction enclose its three biased offsets, and the limits before it, or,
-- if there were none, those that its first offset gives.
pub update_rc_limits-Enclosing :
    (limits : Option (ℤ × ℤ)) (i : Instruction)
    → Enclosing (limits_or limits (biased i.off0)) (update_rc_limits limits i) i
unfolding update_rc_limits
update_rc_limits-Enclosing limits i =
    let (a, b, c) : ℤ × ℤ × ℤ = (biased i.off0, biased i.off1, biased i.off2) in
    let lo = (limits_or limits a).0 in
    let hi = (limits_or limits a).1 in
    let l₁ = min_ℤ-Below lo a in
    let l₂ = min_ℤ-Below (min_ℤ lo a) b in
    let l₃ = min_ℤ-Below (min_ℤ (min_ℤ lo a) b) c in
    let h₁ = max_ℤ-Below hi a in
    let h₂ = max_ℤ-Below (max_ℤ hi a) b in
    let h₃ = max_ℤ-Below (max_ℤ (max_ℤ hi a) b) c in
    record {
      low = omega (arith, l₁.0, l₂.0, l₃.0);
      high = omega (arith, h₁.0, h₂.0, h₃.0);
      off0 = (omega (arith, l₁.1, l₂.0, l₃.0), omega (arith, h₁.1, h₂.0, h₃.0));
      off1 = (omega (arith, l₂.1, l₃.0), omega (arith, h₂.1, h₃.0));
      off2 = (l₃.1, h₃.1);
    }
