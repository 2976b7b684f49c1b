-- ===== src/Segments/Load.antt =====
-- `load_data` of vm/src/vm/vm_memory/memory_segments.rs.
use cairo_vm.Base.{
  ℕ, zero, suc, ◌+◌, ◌<◌, ◌≡◌, ◌≢◌, refl, sym, ◌∙◌, subst, some, List, [], ◌∷◌, arith, length,
  get_elem?,
}
use cairo_vm.Base.Result.{ok, map_err, bind-ok-elim, map_err-eq-ok}
use cairo_vm.Types.Felt.{FeltOps}
use cairo_vm.Types.Value.{Relocatable, rel, MaybeRelocatable, IsValue}
use cairo_vm.Types.Errors.{MemoryError}
use cairo_vm.Types.Relocatable.{add_offset}
use cairo_vm.Memory.Store.{Memory, value_at}
use cairo_vm.Memory.WriteOnce.{Extends, Updated, insert-Updated}
use cairo_vm.Segments.{MemorySegmentManager, load_from, load_data}

abbrev pub AllValues : List MaybeRelocatable → Type 0
AllValues [] = Unit
AllValues (v ∷ vs) = IsValue v × AllValues vs

pub add_offset-eq-ok :
    (r : Relocatable) (n : ℕ) {a : Relocatable}
    → add_offset r n ≡ ok a
    → a ≡ rel r.segment_index (r.offset + n)
unfolding add_offset
add_offset-eq-ok r n h = ground arith

module _ ⦃F : FeltOps⦄ where
  -- The values `vs` stand in `m'` from `ptr + n` on, and nothing else has changed since `m`.
  pub record Loaded (ptr : Relocatable) (n : ℕ) (vs : List MaybeRelocatable) (m m' : Memory)
      : Type 0 where
    pub here :
        (i : ℕ) (v : MaybeRelocatable)
        → get_elem? vs i ≡ some v
        → value_at m' (rel ptr.segment_index (ptr.offset + (n + i))) ≡ some v
    pub elsewhere :
        (r : Relocatable)
        → ((i : ℕ) → i < length vs → r ≢ rel ptr.segment_index (ptr.offset + (n + i)))
        → value_at m' r ≡ value_at m r
    pub extends : Extends m m'

  Loaded-cons :
      (ptr : Relocatable) (n : ℕ) (v : MaybeRelocatable) (vs : List MaybeRelocatable)
      (m m₁ m' : Memory)
      → Loaded ptr (suc n) vs m m₁
      → Updated m₁ (rel ptr.segment_index (ptr.offset + n)) v m'
      → Loaded ptr n (v ∷ vs) m m'
  Loaded-cons ptr n v vs m m₁ m' l u = record {
    here = elim [
      | zero ↦ λ w e. let p : n + 0 ≡ n = omega arith in rw p (u.here ∙ e)
      | suc i ↦
          λ w e. let p : n + suc i ≡ suc n + i = omega arith in rw p (u.extends _ w (l.here i w e))
    ];
    elsewhere = λ r apart.
        let p : n + 0 ≡ n = omega arith in
        u.elsewhere r (rw p at (apart 0 (omega arith)))
        ∙ l.elsewhere r (λ i h.
          let q : n + suc i ≡ suc n + i = omega arith in rw q at (apart (suc i) (omega arith)));
    extends = λ r w e. u.extends r w (l.extends r w e);
  }

  load_from-Loaded :
      (ptr : Relocatable) (n : ℕ) (vs : List MaybeRelocatable) (m m' : Memory)
      → AllValues vs
      → load_from ptr n vs m ≡ ok m'
      → Loaded ptr n vs m m'
  unfolding load_from
  load_from-Loaded ptr n [] m m' hv h =
      subst (Loaded ptr n [] m) (cc h)
        (record { here = λ i v e. cc e; elsewhere = λ r apart. refl; extends = λ r w e. e })
  load_from-Loaded ptr n (v ∷ vs) m m' hv h =
      bind-ok-elim (load_from ptr (suc n) vs m) _ h λ m₁ e₁ h₁.
        bind-ok-elim (map_err MemoryError.math (add_offset ptr n)) _ h₁ λ addr e₂ h₂.
          let p = add_offset-eq-ok ptr n (map_err-eq-ok MemoryError.math (add_offset ptr n) e₂) in
          Loaded-cons ptr n v vs m m₁ m' (load_from-Loaded ptr (suc n) vs m m₁ hv.1 e₁)
            (subst (λ a. Updated m₁ a v m') p (insert-Updated m₁ m' addr v hv.0 h₂))

  -- `load_data` puts the values at consecutive addresses from `ptr` on, changes no other address,
  -- overwrites nothing, and returns the address past the last value.
  pub load_data-Loaded :
      (s s' : MemorySegmentManager) (ptr end : Relocatable) (vs : List MaybeRelocatable)
      → AllValues vs
      → load_data s ptr vs ≡ ok (s', end)
      → Loaded ptr 0 vs s.memory s'.memory × (end ≡ rel ptr.segment_index (ptr.offset + length vs))
  unfolding load_data
  load_data-Loaded s s' ptr end vs hv h = bind-ok-elim (load_from ptr 0 vs s.memory) _ h λ m e h₁.
      bind-ok-elim (map_err MemoryError.math (add_offset ptr (length vs))) _ h₁ λ last e₂ h₂.
        let p : m ≡ s'.memory = ground arith in
        let q : last ≡ end = ground arith in
        (
          subst (Loaded ptr 0 vs s.memory) p (load_from-Loaded ptr 0 vs s.memory m hv e),
          sym q
              ∙ add_offset-eq-ok ptr (length vs)
                  (map_err-eq-ok MemoryError.math (add_offset ptr (length vs)) e₂),
        )
