-- ===== src/Memory/Rules.antt =====
-- vm/src/vm/vm_memory/memory.rs: relocation rules, validation rules, and the validation of what is
-- already in memory.
use cairo_vm.Base.{
  ℕ, zero, suc, ◌+◌, ◌<◌, ◌≡◌, sym, ◌∙◌, Option, none, some, List, [], ◌∷◌, arith, leb, ◌==◌,
  if◌then◌else◌, is_some, length, get_elem?, grow, subst, ==_refl, word, Bool-cases, inl, inr,
}
use cairo_vm.Base.Int.{ℤ, pos, negsuc}
use cairo_vm.Base.Result.{Result, ok, err, ◌>>=◌}
use cairo_vm.Types.Felt.{FeltOps}
use cairo_vm.Types.Value.{Relocatable, rel, relocatable_value, IsRelocatable}
use cairo_vm.Types.Errors.{MemoryError}
use cairo_vm.Types.Relocatable.{add_offset}
use cairo_vm.Memory.AddressSet.{contains, extend}
use cairo_vm.Memory.Store.{
  Memory, Segment, ValidationRule, RelocationRules, find_rule, value_at, get, relocate_value,
  relocate_address,
}
use cairo_vm.Memory.Valid.{IsValid, RulesValid}

abbrev add_rule_for : Memory → ℤ → ℕ → Relocatable → Result MemoryError Memory
add_rule_for m (pos n) offset dst = err (MemoryError.address_not_in_temporary_segment (pos n))
add_rule_for m (negsuc n) offset dst =
    if offset == 0
    then if is_some (find_rule m.relocation_rules n)
      then err (MemoryError.duplicated_relocation (negsuc n))
      else ok (record m { relocation_rules = (n, dst) ∷ m.relocation_rules })
    else err (MemoryError.non_zero_offset offset)

-- `Memory::add_relocation_rule`: one rule for each temporary segment, from its start.
unfoldable pub add_relocation_rule : Memory → Relocatable → Relocatable → Result MemoryError Memory
unfolding find_rule
add_relocation_rule m src dst = add_rule_for m src.segment_index src.offset dst

-- `Vec::insert`: what stands at the index and after it moves up by one.
abbrev insert_at : List (Option ValidationRule) → ℕ → ValidationRule → List (Option ValidationRule)
insert_at rules zero rule = some rule ∷ rules
insert_at [] (suc i) rule = []
insert_at (r ∷ rules) (suc i) rule = r ∷ insert_at rules i rule

-- `Memory::add_validation_rule`: the gap is filled up to the index itself, and then the rule is
-- inserted before the entry that stands there.
unfoldable pub add_validation_rule : Memory → ℕ → ValidationRule → Memory
add_validation_rule m i rule = record m {
  validation_rules =
      insert_at
        (if leb (length m.validation_rules) i
          then grow m.validation_rules (i + 1) none
          else m.validation_rules)
        i rule;
}

module _ ⦃F : FeltOps⦄ where
  abbrev validate_at : Memory → ValidationRule → Relocatable → Result MemoryError Memory
  validate_at m rule addr =
      if contains m.validated_addresses addr
      then ok m
      else rule (get m) addr >>= λ valid.
          ok (record m { validated_addresses = extend m.validated_addresses valid })

  -- The offsets of one segment, from `offset` on, with `n` of them left.
  unfoldable pub validate_offsets : ValidationRule → ℕ → ℕ → ℕ → Memory → Result MemoryError Memory
  unfolding get contains extend
  validate_offsets rule index offset zero m = ok m
  validate_offsets rule index offset (suc n) m = do
    m' ← validate_at m rule (rel (pos index) offset)
    validate_offsets rule index (suc offset) n m'

  abbrev validate_segment :
      Option ValidationRule → ℕ → Option Segment → Memory → Result MemoryError Memory
  validate_segment none index segment m = ok m
  validate_segment (some rule) index none m = ok m
  validate_segment (some rule) index (some segment) m =
      validate_offsets rule index 0 (length segment) m

  unfoldable pub validate_from :
      List (Option ValidationRule) → ℕ → Memory → Result MemoryError Memory
  unfolding validate_offsets
  validate_from [] index m = ok m
  validate_from (rule ∷ rules) index m = do
    m' ← validate_segment rule index (get_elem? m.data_segments index) m
    validate_from rules (suc index) m'

  -- `Memory::validate_existing_memory`
  unfoldable pub validate_existing_memory : Memory → Result MemoryError Memory
  unfolding validate_from
  validate_existing_memory m = validate_from m.validation_rules 0 m

  RulesValid-add :
      (rules : RelocationRules) (n : ℕ) (dst : Relocatable)
      → RulesValid rules
      → IsRelocatable dst
      → RulesValid ((n, dst) ∷ rules)
  unfolding find_rule
  RulesValid-add rules n dst h fits k base e = elim (Bool-cases (n == k)) [
    | inl same ↦ subst IsRelocatable (let p : some dst ≡ some base = sym (rw same) ∙ e in cc p) fits
    | inr other ↦ h k base (sym (rw other) ∙ e)
  ]

  add_rule_for-IsValid :
      (m m' : Memory) (s : ℤ) (o : ℕ) (dst : Relocatable)
      → IsValid m
      → IsRelocatable dst
      → add_rule_for m s o dst ≡ ok m'
      → IsValid m'
  unfolding value_at
  add_rule_for-IsValid m m' (pos n) o dst valid fits h = cc h
  add_rule_for-IsValid m m' (negsuc n) o dst valid fits h =
      let p : record m { relocation_rules = (n, dst) ∷ m.relocation_rules } ≡ m' = ground arith in
      subst IsValid p (record {
        stored = valid.stored;
        rules = RulesValid-add m.relocation_rules n dst valid.rules fits;
      })

  -- A relocation rule whose target is an address that fits its cell keeps the memory valid.
  pub add_relocation_rule-IsValid :
      (m m' : Memory) (src dst : Relocatable)
      → IsValid m
      → IsRelocatable dst
      → add_relocation_rule m src dst ≡ ok m'
      → IsValid m'
  unfolding add_relocation_rule
  add_relocation_rule-IsValid m m' src dst =
      add_rule_for-IsValid m m' src.segment_index src.offset dst

  find_rule-head :
      (n : ℕ) (dst : Relocatable) (rules : RelocationRules)
      → find_rule ((n, dst) ∷ rules) n ≡ some dst
  unfolding find_rule
  find_rule-head n dst rules = rw (==_refl n)

  relocate_value-rule :
      (rules : RelocationRules) (n o : ℕ) (dst : Relocatable)
      → find_rule rules n ≡ some dst
      → dst.offset + o < word
      → relocate_value rules (relocatable_value (rel (negsuc n) o))
        ≡ ok (relocatable_value (rel dst.segment_index (dst.offset + o)))
  unfolding relocate_value relocate_address add_offset
  relocate_value-rule rules n o dst found fits = rw found (ground arith)

  -- After a relocation rule is added, an address of its temporary segment that is stored in
  -- memory reads as the address at the same offset from the rule's target, if that does not
  -- overflow.
  pub get-add_relocation_rule :
      (m m' : Memory) (r dst : Relocatable) (n o : ℕ)
      → add_relocation_rule m (rel (negsuc n) 0) dst ≡ ok m'
      → value_at m r ≡ some (relocatable_value (rel (negsuc n) o))
      → dst.offset + o < word
      → get m' r ≡ some (relocatable_value (rel dst.segment_index (dst.offset + o)))
  unfolding add_relocation_rule get value_at
  get-add_relocation_rule m m' r dst n o h stored fits =
      let p : record m { relocation_rules = (n, dst) ∷ m.relocation_rules } ≡ m' = ground arith in
      rw (
        ← p,
        stored,
        relocate_value-rule ((n, dst) ∷ m.relocation_rules) n o dst
            (find_rule-head n dst m.relocation_rules) fits,
      )
