-- ===== src/Types/Value.antt =====
-- vm/src/types/relocatable.rs: the two data types, and equality of values.
use cairo_vm.Base.{ℕ, ◌^◌, ◌<◌, ◌≡◌, ◌↔◌, Bool, true, false, ◌&&◌, arith, ◌==◌, word}
use cairo_vm.Base.Int.{ℤ, pos, negsuc, eqb_ℤ, eqb_ℤ_iff}
use cairo_vm.Types.Felt.{Felt, IsFelt}

pub record Relocatable : Type 0 where
  pub segment_index : ℤ
  pub offset : ℕ

abbrev pub rel : ℤ → ℕ → Relocatable
rel s o = record { segment_index = s; offset = o }

pub data MaybeRelocatable : Type 0 where
  relocatable_value : Relocatable → MaybeRelocatable
  int : Felt → MaybeRelocatable

-- The derived `==`.
abbrev pub eqb_rel : Relocatable → Relocatable → Bool
eqb_rel a b = eqb_ℤ a.segment_index b.segment_index && a.offset == b.offset

abbrev pub eqb : MaybeRelocatable → MaybeRelocatable → Bool
eqb (relocatable_value a) (relocatable_value b) = eqb_rel a b
eqb (int a) (int b) = a == b
eqb _ _ = false

pub eqb_rel_iff : (a b : Relocatable) → (eqb_rel a b ≡ true) ↔ (a ≡ b)
eqb_rel_iff a b = ground (arith, eqb_ℤ_iff a.segment_index b.segment_index)

pub eqb_iff : (a b : MaybeRelocatable) → (eqb a b ≡ true) ↔ (a ≡ b)
eqb_iff (relocatable_value a) (relocatable_value b) = ground (arith, eqb_rel_iff a b)
eqb_iff (relocatable_value a) (int b) = ground arith
eqb_iff (int a) (relocatable_value b) = ground arith
eqb_iff (int a) (int b) = ground arith

-- Machine ranges: an `isize`, and what each type of value holds.
abbrev pub IsIsize : ℤ → Type 0
IsIsize (pos n) = n < 2 ^ 63
IsIsize (negsuc n) = n < 2 ^ 63

pub record IsRelocatable (r : Relocatable) : Type 0 where
  pub segment : IsIsize r.segment_index
  pub offset : r.offset < word

abbrev pub IsValue : MaybeRelocatable → Type 0
IsValue (relocatable_value r) = IsRelocatable r
IsValue (int x) = IsFelt x
