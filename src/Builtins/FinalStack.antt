-- ===== src/Builtins/FinalStack.antt =====
-- vm/src/vm/runners/builtin_runner/mod.rs: a final stack that is accepted has a stop pointer that
-- counts the cells in use.
pub mod Rounded
use cairo_vm.Base.{
  ℕ, ◌≡◌, sym, ap, ◌∙◌, Bool, true, false, if◌then◌else◌, arith, ◌==◌, ==_iff, ==_refl, ◌↔◌, subst,
  if-eq_then, if-eq_else, Bool-cases, inl, inr,
}
use cairo_vm.Base.Int.{pos, eqb_ℤ, eqb_ℤ_iff}
use cairo_vm.Base.Result.{Result, ok, err, map_err-eq-ok, bind-ok-elim, ok-injective}
use cairo_vm.Types.Felt.{FeltOps}
use cairo_vm.Types.Value.{Relocatable}
use cairo_vm.Types.Relocatable.{sub_offset}
use cairo_vm.Memory.Reads.{get_relocatable}
use cairo_vm.Segments.{MemorySegmentManager}
use cairo_vm.Builtins.FinalStack.Rounded.{
  IsRoundedUp, used_at_stop-IsRoundedUp, IsRoundedUp-used_at_stop,
}
use cairo_vm.Builtins.Runner.{BuiltinRunner, base, set_stop_ptr}
use cairo_vm.Builtins.Usage.{
  included, used_at_stop, final_stack, no_pointer, on_its_segment, checked_stop,
}

on_its_segment-eq :
    (b : BuiltinRunner) (r : Relocatable) {t : Unit {0}}
    → on_its_segment b r ≡ ok t
    → pos (base b) ≡ r.segment_index
unfolding on_its_segment base
on_its_segment-eq b r h = ground (arith, eqb_ℤ_iff (pos (base b)) r.segment_index)

chosen {ℓ} : {A : Type ℓ} (b : Bool) (x y : A) {z : A} → b ≡ true → x ≡ z → (if b then x else y) ≡ z
chosen true x y h e = e
chosen false x y h e = cc h

err_not_ok {ℓ κ} :
    {E : Type 0} {A : Type ℓ} {P : Type κ} {e : E} {a : A} → Path (Result E A) (err e) (ok a) → P
err_not_ok h = cc h

checked_stop-eq :
    (b b' : BuiltinRunner) (a p stop : Relocatable) (used : ℕ)
    → checked_stop b a stop used ≡ ok (b', p)
    → (stop.offset ≡ used) × (b' ≡ set_stop_ptr b stop.offset) × (p ≡ a)
unfolding checked_stop
checked_stop-eq b b' a p stop used h = elim (Bool-cases (stop.offset == used)) [
  | inl same ↦
      let e = ok-injective (if-eq_then _ (ok (set_stop_ptr b stop.offset, a)) _ same h) in
      ((==_iff _ _).0 same, sym (ap (λ x. x.0) e), sym (ap (λ x. x.1) e))
  | inr other ↦ err_not_ok (if-eq_else _ (ok (set_stop_ptr b stop.offset, a)) _ other h)
]

module _ ⦃F : FeltOps⦄ where
  -- The stop pointer that was found just below the given pointer.
  pub record IsStopped (b b' : BuiltinRunner) (s : MemorySegmentManager) (pointer p : Relocatable)
      : Type 0 where
    pub stop : Relocatable
    pub below : sub_offset pointer 1 ≡ ok p
    pub stored : get_relocatable s.memory p ≡ ok stop
    pub on_segment : pos (base b) ≡ stop.segment_index
    pub counts : IsRoundedUp b s stop.offset
    pub runner : b' ≡ set_stop_ptr b stop.offset

  accepted-IsStopped :
      (b b' : BuiltinRunner) (s : MemorySegmentManager) (pointer p : Relocatable)
      → included b ≡ true
      → final_stack b s pointer ≡ ok (b', p)
      → IsStopped b b' s pointer p
  unfolding final_stack no_pointer
  accepted-IsStopped b b' s pointer p i h =
      bind-ok-elim (no_pointer b (sub_offset pointer 1)) _ (if-eq_then _ _ _ i h) λ a e h₁.
        bind-ok-elim (no_pointer b (get_relocatable s.memory a)) _ h₁ λ stop e₁ h₂.
          bind-ok-elim (on_its_segment b stop) _ h₂ λ t e₂ h₃.
            bind-ok-elim (used_at_stop b s) _ h₃ λ used e₃ h₄.
              let c = checked_stop-eq b b' a p stop used h₄ in
              record {
                stop = stop;
                below = map_err-eq-ok _ _ e ∙ ap (λ x. ok x) (sym c.2);
                stored = rw c.2 (map_err-eq-ok _ _ e₁);
                on_segment = on_its_segment-eq b stop e₂;
                counts = subst (IsRoundedUp b s) (sym c.0) (used_at_stop-IsRoundedUp b s used e₃);
                runner = c.1;
              }

  IsStopped-accepted :
      (b b' : BuiltinRunner) (s : MemorySegmentManager) (pointer p : Relocatable)
      → included b ≡ true
      → IsStopped b b' s pointer p
      → final_stack b s pointer ≡ ok (b', p)
  unfolding final_stack no_pointer on_its_segment checked_stop
  IsStopped-accepted b b' s pointer p i h =
      let there : eqb_ℤ (pos (base b)) h.stop.segment_index ≡ true =
        (eqb_ℤ_iff _ _).1 h.on_segment in
      let counted = IsRoundedUp-used_at_stop b s h.stop.offset h.counts in
      chosen (included b) _ _ i (
        rw (h.below, h.stored, there, counted, ==_refl h.stop.offset)
          (ap (λ x. ok (x, p)) (sym h.runner)))

  -- A final stack of a builtin that the program includes is accepted exactly if there is, just
  -- below the given pointer, an address on the segment of the builtin, whose offset is the used size
  -- of the segment rounded up to whole instances (to single cells for the output builtin); a segment
  -- arena has used the three cells of its first instance at least. That offset then is the stop
  -- pointer of the runner, and the pointer below is returned.
  pub final_stack-IsStopped_iff :
      (b b' : BuiltinRunner) (s : MemorySegmentManager) (pointer p : Relocatable)
      → included b ≡ true
      → (final_stack b s pointer ≡ ok (b', p)) ↔ IsStopped b b' s pointer p
  final_stack-IsStopped_iff b b' s pointer p i =
      (accepted-IsStopped b b' s pointer p i, IsStopped-accepted b b' s pointer p i)
