-- ===== src/Memory/Moved.antt =====
-- `relocate_memory` of vm/src/vm/vm_memory/memory.rs changes no reading of a real segment.
use cairo_vm.Base.{
  ℕ, zero, suc, ◌≡◌, refl, sym, ap, ◌∙◌, Bool, true, false, ◌||◌, Option, none, some, [], ◌∷◌,
  length, get_elem?, if◌then◌else◌, Bool-cases, inl, inr,
}
use cairo_vm.Base.Int.{pos}
use cairo_vm.Base.Result.{ok, ok-injective, map_err, bind-ok-elim}
use cairo_vm.Types.Felt.{FeltOps}
use cairo_vm.Types.Value.{Relocatable, rel, MaybeRelocatable}
use cairo_vm.Types.Errors.{MemoryError}
use cairo_vm.Types.Relocatable.{add_offset}
use cairo_vm.Memory.Cell.{MemoryCell, get_value, is_accessed}
use cairo_vm.Memory.Store.{Memory, Segment, find_rule, insert, mark_as_accessed, value_at, get}
use cairo_vm.Memory.WriteOnce.{insert-Extends}
use cairo_vm.Memory.Access.{value_at-mark_as_accessed}
use cairo_vm.Memory.Valid.{IsValid, get-no_rules}
use cairo_vm.Memory.Relocate.{
  insert_cell, move_cells, move_segment, move_segments, relocate_rows, relocate_all,
  relocate_memory, remove_at, is_empty, relocate_rows-value,
}

module _ ⦃F : FeltOps⦄ where
  -- What real segments hold in `m` they hold in `m'`.
  abbrev KeepsReal : Memory → Memory → Type 0
  KeepsReal m m' =
      (i o : ℕ) (w : MaybeRelocatable)
      → value_at m (rel (pos i) o) ≡ some w
      → value_at m' (rel (pos i) o) ≡ some w

  mark_after :
      (b : Bool) (m : Memory) (a r : Relocatable)
      → value_at (if b then mark_as_accessed m a else m) r ≡ value_at m r
  mark_after true m a r = value_at-mark_as_accessed m a r
  mark_after false m a r = refl

  insert_cell-KeepsReal :
      (m m' : Memory) (a : Relocatable) (c : MemoryCell) (v : Option MaybeRelocatable)
      → insert_cell m a c v ≡ ok m'
      → KeepsReal m m'
  insert_cell-KeepsReal m m' a c none h i o w g =
      ap (λ x. value_at x (rel (pos i) o)) (sym (ok-injective h)) ∙ g
  insert_cell-KeepsReal m m' a c (some v) h i o w g = bind-ok-elim (insert m a v) _ h λ m₁ e h₁.
      ap (λ x. value_at x (rel (pos i) o)) (sym (ok-injective h₁))
      ∙ mark_after (is_accessed c) m₁ a (rel (pos i) o)
      ∙ insert-Extends m m₁ a v e (rel (pos i) o) w g

  move_cells-KeepsReal :
      (m m' : Memory) (a : Relocatable) (cells : Segment)
      → move_cells m a cells ≡ ok m'
      → KeepsReal m m'
  unfolding move_cells
  move_cells-KeepsReal m m' a [] h i o w g =
      ap (λ x. value_at x (rel (pos i) o)) (sym (ok-injective h)) ∙ g
  move_cells-KeepsReal m m' a (c ∷ cs) h i o w g =
      bind-ok-elim (insert_cell m a c (get_value c)) _ h λ m₁ e₁ h₁.
        bind-ok-elim (map_err MemoryError.math (add_offset a 1)) _ h₁ λ next e₂ h₂.
          move_cells-KeepsReal m₁ m' next cs h₂ i o w
            (insert_cell-KeepsReal m m₁ a c (get_value c) e₁ i o w g)

  move_segment-KeepsReal :
      (m m' : Memory) (n : ℕ) (base : Option Relocatable) (s : Option Segment)
      → move_segment m n base s ≡ ok m'
      → KeepsReal m m'
  unfolding value_at
  move_segment-KeepsReal m m' n none s h i o w g =
      ap (λ x. value_at x (rel (pos i) o)) (sym (ok-injective h)) ∙ g
  move_segment-KeepsReal m m' n (some base) none h i o w g =
      ap (λ x. value_at x (rel (pos i) o)) (sym (ok-injective h)) ∙ g
  move_segment-KeepsReal m m' n (some base) (some s) h i o w g =
      move_cells-KeepsReal (record m { temp_data = remove_at m.temp_data n }) m' base s h i o w g

  move_segments-KeepsReal : (n : ℕ) (m m' : Memory) → move_segments n m ≡ ok m' → KeepsReal m m'
  unfolding move_segments
  move_segments-KeepsReal zero m m' h i o w g =
      ap (λ x. value_at x (rel (pos i) o)) (sym (ok-injective h)) ∙ g
  move_segments-KeepsReal (suc n) m m' h i o w g =
      bind-ok-elim (move_segment m n (find_rule m.relocation_rules n) (get_elem? m.temp_data n)) _ h
        λ m₁ e h₁. move_segments-KeepsReal n m₁ m' h₁ i o w (
          move_segment-KeepsReal m m₁ n (find_rule m.relocation_rules n) (get_elem? m.temp_data n) e
            i o w g)

  relocate_all-get :
      (m m' : Memory) (i o : ℕ) (w : MaybeRelocatable)
      → IsValid m
      → relocate_all m ≡ ok m'
      → get m (rel (pos i) o) ≡ some w
      → get m' (rel (pos i) o) ≡ some w
  unfolding get value_at
  relocate_all-get m m' i o w valid h g =
      bind-ok-elim (relocate_rows m.relocation_rules m.data_segments) _ h λ rows e₁ h₁.
        bind-ok-elim (relocate_rows m.relocation_rules m.temp_data) _ h₁ λ temp e₂ h₂.
          let m₁ : Memory = record m { data_segments = rows; temp_data = temp } in
          bind-ok-elim (move_segments (length m.temp_data) m₁) _ h₂ λ m₂ e₃ h₃.
            let stored : value_at m₁ (rel (pos i) o) ≡ some w =
              relocate_rows-value m.relocation_rules m.data_segments rows i o valid.rules
                (λ x e. valid.stored (rel (pos i) o) x e) e₁
              ∙ g in
            let kept = move_segments-KeepsReal (length m.temp_data) m₁ m₂ e₃ i o w stored in
            let p : record m₂ { relocation_rules = [] } ≡ m' = ok-injective h₃ in
            get-no_rules m' (rel (pos i) o) w (ap (λ x. x.relocation_rules) (sym p))
              (ap (λ x. value_at x (rel (pos i) o)) (sym p) ∙ kept)

  -- Relocating the memory changes no reading of a real segment: an address that read as a value
  -- through the relocation rules holds that value afterwards. The memory is valid.
  pub relocate_memory-get :
      (m m' : Memory) (i o : ℕ) (w : MaybeRelocatable)
      → IsValid m
      → relocate_memory m ≡ ok m'
      → get m (rel (pos i) o) ≡ some w
      → get m' (rel (pos i) o) ≡ some w
  unfolding relocate_memory
  relocate_memory-get m m' i o w valid h g =
      elim (Bool-cases (is_empty m.relocation_rules || is_empty m.temp_data)) [
        | inl nothing ↦
            let p : m ≡ m' = ok-injective (rw nothing at h) in
            ap (λ x. get x (rel (pos i) o)) (sym p) ∙ g
        | inr some_left ↦ relocate_all-get m m' i o w valid (rw some_left at h) g
      ]
