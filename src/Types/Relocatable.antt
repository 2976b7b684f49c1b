-- ===== src/Types/Relocatable.antt =====
-- vm/src/types/relocatable.rs: arithmetic on addresses and values, and their relocation.
pub mod Laws
use cairo_vm.Base.{
  ℕ, ◌+◌, ◌-◌, ◌<◌, ◌≡◌, Bool, true, false, Option, none, some, List, arith, ltb, leb, ◌==◌,
  if◌then◌else◌, word, wrapping_add, length, get_elem?,
}
use cairo_vm.Base.Int.{ℤ, pos, negsuc, eqb_ℤ, sub_ℕ}
use cairo_vm.Base.Result.{Result, ok, err, ◌>>=◌, ◌>>◌, guard, ok_or, map_err}
use cairo_vm.Types.Felt.{Felt, FeltOps}
use cairo_vm.Types.Value.{Relocatable, rel, MaybeRelocatable, relocatable_value, int}
use cairo_vm.Types.Errors.{MathError, MemoryError}

-- `Relocatable + usize`: the offset is added with a check of overflow.
unfoldable pub add_offset : Relocatable → ℕ → Result MathError Relocatable
add_offset r n =
    if ltb (r.offset + n) word
    then ok (rel r.segment_index (r.offset + n))
    else err (MathError.relocatable_add_usize_offset_exceeded r n)

-- `Relocatable += usize`: in a build without overflow checks the sum wraps.
unfoldable pub add_assign : Relocatable → ℕ → Relocatable
add_assign r n = rel r.segment_index (wrapping_add r.offset n)

-- `Relocatable - usize`.
unfoldable pub sub_offset : Relocatable → ℕ → Result MathError Relocatable
sub_offset r n =
    if ltb r.offset n
    then err (MathError.relocatable_sub_usize_neg_offset r n)
    else ok (rel r.segment_index (r.offset - n))

-- `Relocatable + i32`.
unfoldable pub add_i32 : Relocatable → ℤ → Result MathError Relocatable
unfolding add_offset sub_offset
add_i32 r (pos n) = add_offset r n
add_i32 r (negsuc n) = sub_offset r (n + 1)

-- `Relocatable - Relocatable`.
unfoldable pub sub_relocatable : Relocatable → Relocatable → Result MathError ℕ
sub_relocatable a b =
    if eqb_ℤ a.segment_index b.segment_index
    then if ltb a.offset b.offset
      then err (MathError.relocatable_sub_usize_neg_offset a b.offset)
      else ok (a.offset - b.offset)
    else err (MathError.relocatable_sub_diff_index a b)

-- `TryFrom<&MaybeRelocatable> for Relocatable`.
unfoldable pub try_from : MaybeRelocatable → Result MathError Relocatable
try_from (relocatable_value r) = ok r
try_from (int x) = err (MathError.felt252_to_relocatable x)

unfoldable pub get_int : MaybeRelocatable → Option Felt
get_int (int x) = some x
get_int (relocatable_value _) = none

unfoldable pub get_relocatable : MaybeRelocatable → Option Relocatable
get_relocatable (relocatable_value r) = some r
get_relocatable (int _) = none

module _ ⦃F : FeltOps⦄ where
  -- `Relocatable + &Felt252`.
  unfoldable pub add_felt : Relocatable → Felt → Result MathError Relocatable
  add_felt r x = do
    n ← ok_or (F.u64_add r.offset x) (MathError.relocatable_add_felt252_offset_exceeded r x)
    ok (rel r.segment_index n)

  -- `Relocatable + &MaybeRelocatable`.
  unfoldable pub add_maybe : Relocatable → MaybeRelocatable → Result MathError Relocatable
  unfolding add_felt
  add_maybe r (relocatable_value s) = err (MathError.relocatable_add r s)
  add_maybe r (int x) = add_felt r x

  -- `MaybeRelocatable::add_int`.
  unfoldable pub add_int : MaybeRelocatable → Felt → Result MathError MaybeRelocatable
  unfolding add_felt
  add_int (int x) y = ok (int (F.add x y))
  add_int (relocatable_value r) y = do s ← add_felt r y; ok (relocatable_value s)

  -- `MaybeRelocatable::add_usize`.
  unfoldable pub add_usize : MaybeRelocatable → ℕ → Result MathError MaybeRelocatable
  unfolding add_offset
  add_usize (int x) n = ok (int (F.add x n))
  add_usize (relocatable_value r) n = do s ← add_offset r n; ok (relocatable_value s)

  -- `MaybeRelocatable::add`: two relocatable values cannot be added.
  unfoldable pub add : MaybeRelocatable → MaybeRelocatable → Result MathError MaybeRelocatable
  unfolding add_felt
  add (int x) (int y) = ok (int (F.add x y))
  add (relocatable_value r) (relocatable_value s) = err (MathError.relocatable_add r s)
  add (relocatable_value r) (int x) = do s ← add_felt r x; ok (relocatable_value s)
  add (int x) (relocatable_value r) = do s ← add_felt r x; ok (relocatable_value s)

  -- `MaybeRelocatable::sub_usize`.
  unfoldable pub sub_usize : MaybeRelocatable → ℕ → Result MathError MaybeRelocatable
  unfolding sub_offset
  sub_usize (int x) n = ok (int (F.sub x n))
  sub_usize (relocatable_value r) n = do s ← sub_offset r n; ok (relocatable_value s)

  -- `MaybeRelocatable::sub`: relocatable values of one segment differ by a felt.
  unfoldable pub sub : MaybeRelocatable → MaybeRelocatable → Result MathError MaybeRelocatable
  sub (int x) (int y) = ok (int (F.sub x y))
  sub (relocatable_value a) (relocatable_value b) =
      if eqb_ℤ a.segment_index b.segment_index
      then ok (int (F.from_i128 (sub_ℕ a.offset b.offset)))
      else err (MathError.relocatable_sub_diff_index a b)
  sub (relocatable_value a) (int x) = do
    n ← ok_or (F.u64_sub a.offset x) (MathError.relocatable_sub_felt252_neg_offset a x)
    ok (relocatable_value (rel a.segment_index n))
  sub (int x) (relocatable_value r) = err (MathError.sub_relocatable_from_int x r)

  -- `MaybeRelocatable::divmod`: field division, so the remainder is always zero.
  unfoldable pub divmod :
      MaybeRelocatable → MaybeRelocatable → Result MathError (MaybeRelocatable × MaybeRelocatable)
  divmod (int x) (int y) =
      if y == 0 then err MathError.divided_by_zero else ok (int (F.field_div x y), int 0)
  divmod v w = err (MathError.div_mod_wrong_type v w)

-- `relocate_address`: a real address in the flat memory. The sum of two `usize` wraps.
unfoldable pub relocate_index : ℤ → ℕ → List ℕ → Result MemoryError ℕ
relocate_index (negsuc n) offset table =
    err (MemoryError.temporary_segment_in_relocation (negsuc n))
relocate_index (pos s) offset table = do
  base ← ok_or (get_elem? table s) MemoryError.relocation
  ok (wrapping_add base offset)

unfoldable pub relocate_address : Relocatable → List ℕ → Result MemoryError ℕ
unfolding relocate_index
relocate_address r table = relocate_index r.segment_index r.offset table

unfoldable pub relocate_value : MaybeRelocatable → List ℕ → Result MemoryError Felt
unfolding relocate_address
relocate_value (int x) table = ok x
relocate_value (relocatable_value r) table = relocate_address r table
