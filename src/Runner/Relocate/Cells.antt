-- ===== src/Runner/Relocate/Cells.antt =====
-- vm/src/vm/runners/cairo_runner.rs: what the cells of one segment do to one address of the flat
-- memory.
use cairo_vm.Base.{
  ℕ, zero, suc, ◌+◌, ◌≡◌, ◌≢◌, sym, ◌∙◌, subst, Option, none, some, List, [], ◌∷◌, arith,
  get_elem?-append_lt, inl, inr, Option-cases, get_elem?, get_elem?-lt, grow, get_elem?-set_self,
  get_elem?-set_ne, get_elem?-grow_lt, length-grow_ge,
}
use native.Mathlib.Decide.{dec_lt}
use cairo_vm.Base.Int.{pos}
use cairo_vm.Base.Result.{ok, and_then, bind-ok-elim, ok-injective}
use cairo_vm.Types.Felt.{Felt, FeltOps}
use cairo_vm.Types.Value.{rel, MaybeRelocatable}
use cairo_vm.Types.Relocatable.{relocate_address, relocate_value}
use cairo_vm.Memory.Cell.{MemoryCell, get_value}
use cairo_vm.Memory.Store.{Segment}
use cairo_vm.Runner.Relocate.{put_at, relocate_cell, relocate_cells}

get_elem?-put_at :
    (flat : List (Option Felt)) (a : ℕ) (w : Felt) → get_elem? (put_at flat a w) a ≡ some (some w)
unfolding put_at
get_elem?-put_at flat a w =
    get_elem?-set_self (grow flat (a + 1) none) a (some w)
      (omega (arith, length-grow_ge flat (a + 1) none))

get_elem?-put_at_ne :
    (flat : List (Option Felt)) (a b : ℕ) (w u : Felt)
    → b ≢ a
    → get_elem? flat a ≡ some (some w)
    → get_elem? (put_at flat b u) a ≡ some (some w)
unfolding put_at
get_elem?-put_at_ne flat a b w u apart h =
    get_elem?-set_ne (grow flat (b + 1) none) b a (some u) apart
    ∙ get_elem?-grow_lt flat (b + 1) a none (get_elem?-lt flat a h)
    ∙ h

-- One address of the flat memory, with the value that belongs there.
module _ ⦃F : FeltOps⦄ (table : List ℕ) (a : ℕ) (w : Felt) where
  unfoldable pub Same : ℕ → ℕ → MaybeRelocatable → Type 0
  Same i o v = relocate_address (rel (pos i) o) table ≡ ok a → relocate_value v table ≡ ok w

  unfoldable pub Stands : List (Option Felt) → Type 0
  Stands flat = get_elem? flat a ≡ some (some w)

  put_at-Stands :
      (flat : List (Option Felt)) (b : ℕ) (u : Felt) (v : MaybeRelocatable)
      → Stands flat
      → (b ≡ a → relocate_value v table ≡ ok w)
      → relocate_value v table ≡ ok u
      → Stands (put_at flat b u)
  unfolding Stands
  put_at-Stands flat b u v h here e = elim (dec_lt a b) [
    | yes above ↦ get_elem?-put_at_ne flat a b w u (λ p. absurd (omega arith)) h
    | no ge ↦ elim (dec_lt b a) [
      | yes below ↦ get_elem?-put_at_ne flat a b w u (λ p. absurd (omega arith)) h
      | no le ↦
          let p : b ≡ a = omega arith in
          let q : u ≡ w = ok-injective (sym e ∙ here p) in
          subst (λ x. get_elem? (put_at flat x u) a ≡ some (some w)) (sym p)
            (subst (λ x. get_elem? (put_at flat a x) a ≡ some (some w)) (sym q)
              (get_elem?-put_at flat a w))
    ]
  ]

  relocate_cell-keeps :
      (i o : ℕ) (c : MemoryCell) (flat flat' : List (Option Felt))
      → ((v : MaybeRelocatable) → get_value c ≡ some v → Same i o v)
      → Stands flat
      → relocate_cell table i o c flat ≡ ok flat'
      → Stands flat'
  unfolding relocate_cell Same Stands
  relocate_cell-keeps i o c flat flat' same h e = elim (Option-cases (get_value c)) [
    | inl empty ↦
        subst Stands (ok-injective (rw (relocate_cell, empty) at e))
          (get_elem?-append_lt flat (none ∷ []) a h)
    | inr full ↦
        bind-ok-elim (relocate_address (rel (pos i) o) table) _ (rw (relocate_cell, full.1) at e)
          λ b eb e₁. bind-ok-elim (relocate_value full.0 table) _ e₁ λ u eu e₂.
            subst Stands (ok-injective e₂) (
              put_at-Stands flat b u full.0 h
                (λ p.
                  same full.0 full.1
                    (subst (λ x. relocate_address (rel (pos i) o) table ≡ ok x) p eb))
                eu)
  ]

  relocate_cell-puts :
      (i o : ℕ) (c : MemoryCell) (v : MaybeRelocatable) (flat flat' : List (Option Felt))
      → get_value c ≡ some v
      → relocate_address (rel (pos i) o) table ≡ ok a
      → relocate_value v table ≡ ok w
      → relocate_cell table i o c flat ≡ ok flat'
      → Stands flat'
  unfolding relocate_cell Stands
  relocate_cell-puts i o c v flat flat' hv ha hw e =
      subst Stands (ok-injective (rw (relocate_cell, hv, ha, hw) at e)) (get_elem?-put_at flat a w)

  -- No cell is relocated to the address with another value.
  unfoldable pub SameCells : ℕ → ℕ → Segment → Type 0
  SameCells i o cs =
      (p : ℕ) (v : MaybeRelocatable)
      → and_then (get_elem? cs p) get_value ≡ some v
      → Same i (o + p) v

  pub later_cells :
      (i o : ℕ) (c : MemoryCell) (cs : Segment) → SameCells i o (c ∷ cs) → SameCells i (suc o) cs
  unfolding SameCells
  later_cells i o c cs same p v q =
      let shift : o + suc p ≡ suc o + p = omega arith in
      subst (λ x. Same i x v) shift (same (suc p) v q)

  pub relocate_cells-keeps :
      (i o : ℕ) (cs : Segment) (flat flat' : List (Option Felt))
      → SameCells i o cs
      → Stands flat
      → relocate_cells table i o cs flat ≡ ok flat'
      → Stands flat'
  unfolding relocate_cells SameCells
  relocate_cells-keeps i o [] flat flat' same h e = subst Stands (ok-injective e) h
  relocate_cells-keeps i o (c ∷ cs) flat flat' same h e =
      bind-ok-elim (relocate_cell table i o c flat) _ e λ next e₁ e₂.
        relocate_cells-keeps i (suc o) cs next flat' (later_cells i o c cs same)
          (relocate_cell-keeps i o c flat next
            (λ v q.
              let none_before : o + 0 ≡ o = omega arith in
              subst (λ x. Same i x v) none_before (same 0 v q))
            h e₁)
          e₂

  pub relocate_cells-puts :
      (i o : ℕ) (cs : Segment) (p : ℕ) (v : MaybeRelocatable) (flat flat' : List (Option Felt))
      → SameCells i o cs
      → and_then (get_elem? cs p) get_value ≡ some v
      → relocate_address (rel (pos i) (o + p)) table ≡ ok a
      → relocate_value v table ≡ ok w
      → relocate_cells table i o cs flat ≡ ok flat'
      → Stands flat'
  unfolding relocate_cells SameCells
  relocate_cells-puts i o [] p v flat flat' same hv ha hw e = cc hv
  relocate_cells-puts i o (c ∷ cs) zero v flat flat' same hv ha hw e =
      let none_before : o + 0 ≡ o = omega arith in
      bind-ok-elim (relocate_cell table i o c flat) _ e λ next e₁ e₂.
        relocate_cells-keeps i (suc o) cs next flat' (later_cells i o c cs same)
          (relocate_cell-puts i o c v flat next hv (rw none_before at ha) hw e₁) e₂
  relocate_cells-puts i o (c ∷ cs) (suc p) v flat flat' same hv ha hw e =
      let shift : o + suc p ≡ suc o + p = omega arith in
      bind-ok-elim (relocate_cell table i o c flat) _ e λ next e₁ e₂.
        relocate_cells-puts i (suc o) cs p v next flat' (later_cells i o c cs same) hv
          (rw shift at ha) hw e₂
