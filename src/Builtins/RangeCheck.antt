-- ===== src/Builtins/RangeCheck.antt =====
-- vm/src/vm/runners/builtin_runner/range_check.rs: the validation rule of a range check of
-- `n_parts` parts of 16 bits, and what it guarantees of the memory.
use cairo_vm.Base.{
  ℕ, ◌*◌, ◌%◌, ◌^◌, ◌<◌, ◌≡◌, refl, sym, ap, ◌∙◌, true, false, Option, none, some, List, [], ◌∷◌,
  ltb, ltb→lt, if◌then◌else◌, Bool-cases, inl, inr, get_elem?,
}
use cairo_vm.Base.Int.{pos}
use cairo_vm.Base.Result.{Result, ok, err, bind-ok-elim, ok-injective, ok_or}
use cairo_vm.Types.Felt.{Felt, FeltOps, cairo_prime}
use cairo_vm.Types.Value.{Relocatable, rel, MaybeRelocatable, relocatable_value, int}
use cairo_vm.Types.Errors.{MemoryError}
use cairo_vm.Memory.AddressSet.{contains, extend, contains-extend_one}
use cairo_vm.Memory.Store.{
  Memory, ValidationRule, get, insert, validate_memory_cell, make_room, write_cell,
}
use cairo_vm.Memory.Reads.{integer_of}
use cairo_vm.Memory.Rules.{add_validation_rule}

abbrev inner_rc_bound_shift : ℕ
inner_rc_bound_shift = 16

abbrev pub bound_bits : ℕ → ℕ
bound_bits n_parts = n_parts * inner_rc_bound_shift

-- `num.bits() <= N_PARTS * INNER_RC_BOUND_SHIFT` says that the number is below that power of two.
abbrev check_bound :
    ℕ → Relocatable → Result MemoryError Felt → Result MemoryError (List Relocatable)
check_bound n_parts addr (err e) = err (MemoryError.range_check_found_non_int addr)
check_bound n_parts addr (ok num) =
    if ltb num (2 ^ bound_bits n_parts)
    then ok (addr ∷ [])
    else err (MemoryError.range_check_num_out_of_bounds num (2 ^ bound_bits n_parts % cairo_prime))

unfoldable pub validation_rule : ℕ → ValidationRule
unfolding integer_of
validation_rule n_parts read addr = check_bound n_parts addr (integer_of addr (read addr))

-- `RangeCheckBuiltinRunner::add_validation_rule`, for the segment at `base`.
unfoldable pub add_range_check_rule : Memory → ℕ → ℕ → Memory
unfolding validation_rule add_validation_rule
add_range_check_rule m base n_parts = add_validation_rule m base (validation_rule n_parts)

-- What the rule accepts is an integer below the bound, and the address counts as validated.
validation_rule-eq-ok :
    (n_parts : ℕ) (read : Relocatable → Option MaybeRelocatable) (addr : Relocatable)
    (valid : List Relocatable)
    → validation_rule n_parts read addr ≡ ok valid
    → (x : Felt) × (read addr ≡ some (int x)) × (x < 2 ^ bound_bits n_parts) × (valid ≡ addr ∷ [])
unfolding validation_rule integer_of
validation_rule-eq-ok n_parts read addr valid h = accepted (read addr) refl h
  where
    accepted :
        (v : Option MaybeRelocatable)
        → read addr ≡ v
        → check_bound n_parts addr (integer_of addr v) ≡ ok valid
        → (x : Felt) × (read addr ≡ some (int x))
          × (x < 2 ^ bound_bits n_parts)
          × (valid ≡ addr ∷ [])
    accepted none e k = cc k
    accepted (some (relocatable_value r)) e k = cc k
    accepted (some (int x)) e k = elim (Bool-cases (ltb x (2 ^ bound_bits n_parts))) [
      | inl below ↦ (x, e, ltb→lt _ _ below, sym (ok-injective (rw below at k)))
      | inr above ↦ absurd (let p = rw above at k in cc p)
    ]

module _ ⦃F : FeltOps⦄ where
  -- The address reads as an integer below the bound, and it is recorded as validated.
  pub record Checked (n_parts : ℕ) (m : Memory) (key : Relocatable) : Type 0 where
    pub num : Felt
    pub reads : get m key ≡ some (int num)
    pub below : num < 2 ^ bound_bits n_parts
    pub validated : contains m.validated_addresses key ≡ true

  validate_memory_cell-Checked :
      (m m' : Memory) (i o n_parts : ℕ)
      → get_elem? m.validation_rules i ≡ some (some (validation_rule n_parts))
      → contains m.validated_addresses (rel (pos i) o) ≡ false
      → validate_memory_cell m (rel (pos i) o) ≡ ok m'
      → Checked n_parts m' (rel (pos i) o)
  unfolding validate_memory_cell get
  validate_memory_cell-Checked m m' i o n_parts has_rule fresh h =
      bind-ok-elim (validation_rule n_parts (get m) (rel (pos i) o)) _ (rw (has_rule, fresh) at h)
        λ valid e h₁.
          let (x, reads, below, one) =
            validation_rule-eq-ok n_parts (get m) (rel (pos i) o) valid e in
          let p : record m { validated_addresses = extend m.validated_addresses valid } ≡ m' =
            ok-injective h₁ in
          record {
            num = x;
            reads = ap (λ w. get w (rel (pos i) o)) (sym p) ∙ reads;
            below = below;
            validated =
                ap (λ w. contains w.validated_addresses (rel (pos i) o)) (sym p)
                ∙ ap (λ a. contains (extend m.validated_addresses a) (rel (pos i) o)) one
                ∙ contains-extend_one m.validated_addresses i o;
          }

  -- A successful insertion into a segment with a range check, at an address that was not yet
  -- validated, leaves there an integer below 2^(16 * n_parts), and the address validated; so a
  -- range-checked segment takes no address and no larger integer.
  pub insert-Checked :
      (m m' : Memory) (i o n_parts : ℕ) (v : MaybeRelocatable)
      → get_elem? m.validation_rules i ≡ some (some (validation_rule n_parts))
      → contains m.validated_addresses (rel (pos i) o) ≡ false
      → insert m (rel (pos i) o) v ≡ ok m'
      → Checked n_parts m' (rel (pos i) o)
  unfolding insert
  insert-Checked m m' i o n_parts v has_rule fresh h =
      bind-ok-elim (ok_or (get_elem? m.data_segments i) _) _ h λ segment e₁ h₁.
        bind-ok-elim (make_room segment o) _ h₁ λ roomy e₂ h₂.
          bind-ok-elim (write_cell (rel (pos i) o) v roomy) _ h₂
            λ written e₃ h₃. validate_memory_cell-Checked _ m' i o n_parts has_rule fresh h₃
