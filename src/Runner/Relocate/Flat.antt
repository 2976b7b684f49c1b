-- ===== src/Runner/Relocate/Flat.antt =====
-- vm/src/vm/runners/cairo_runner.rs: the flat memory has each value of the memory at the address
-- that the table gives for its cell.
use cairo_vm.Base.{
  ℕ, zero, suc, ◌+◌, ◌<◌, ◌≡◌, sym, ap, ◌∙◌, subst, Option, none, some, List, [], ◌∷◌, arith, map,
  List-cases, some-injective, inl, inr, Option-cases, word, length, get_elem?, get_elem?-lt,
}
use native.Mathlib.Nat.{zero-add}
use cairo_vm.Base.Int.{pos}
use cairo_vm.Base.Result.{ok, ◌>>=◌, and_then, bind-ok-elim, ok-injective}
use cairo_vm.Types.Felt.{Felt, FeltOps}
use cairo_vm.Types.Value.{rel, MaybeRelocatable}
use cairo_vm.Types.Relocatable.{relocate_address, relocate_value}
use cairo_vm.Memory.Cell.{get_value}
use cairo_vm.Memory.Store.{Segment, value_at}
use cairo_vm.Segments.{
  MemorySegmentManager, find, get_segment_size, get_segment_used_size, relocate_segments,
}
use cairo_vm.Segments.Layout.{InSegment, total_size, relocate_address_injective}
use cairo_vm.Runner.State.{CairoRunner}
use cairo_vm.Runner.Relocate.Cells.{
  Same, Stands, SameCells, relocate_cells-keeps, relocate_cells-puts,
}
use cairo_vm.Runner.Relocate.{relocate_cells, relocate_rows, relocate_memory}

held : ⦃F : FeltOps⦄ → List Segment → ℕ → ℕ → Option MaybeRelocatable
held ss j o = and_then (and_then (get_elem? ss j) (λ s. get_elem? s o)) get_value

-- One address of the flat memory, with the value that belongs there.
module _ ⦃F : FeltOps⦄ (table : List ℕ) (a : ℕ) (w : Felt) where
  SameRows : ℕ → List Segment → Type 0
  SameRows i ss =
      (j o : ℕ) (v : MaybeRelocatable) → held ss j o ≡ some v → Same table a w (i + j) o v

  later_rows : (i : ℕ) (s : Segment) (ss : List Segment) → SameRows i (s ∷ ss) → SameRows (suc i) ss
  unfolding SameRows held
  later_rows i s ss same j o v q =
      let shift : i + suc j ≡ suc i + j = omega arith in
      subst (λ x. Same table a w x o v) shift (same (suc j) o v q)

  first_row :
      (i : ℕ) (s : Segment) (ss : List Segment) → SameRows i (s ∷ ss) → SameCells table a w i 0 s
  unfolding SameRows SameCells held
  first_row i s ss same p v q =
      let first : i + 0 ≡ i = omega arith in
      let none_before : p ≡ 0 + p = omega arith in
      subst (λ x. Same table a w x (0 + p) v) first
        (subst (λ x. Same table a w (i + 0) x v) none_before (same 0 p v q))

  relocate_rows-keeps :
      (i : ℕ) (ss : List Segment) (flat flat' : List (Option Felt))
      → SameRows i ss
      → Stands table a w flat
      → relocate_rows table i ss flat ≡ ok flat'
      → Stands table a w flat'
  unfolding relocate_rows SameRows held
  relocate_rows-keeps i [] flat flat' same h e = subst (Stands table a w) (ok-injective e) h
  relocate_rows-keeps i (s ∷ ss) flat flat' same h e =
      bind-ok-elim (relocate_cells table i 0 s flat) _ e λ next e₁ e₂.
        relocate_rows-keeps (suc i) ss next flat' (later_rows i s ss same)
          (relocate_cells-keeps table a w i 0 s flat next (first_row i s ss same) h e₁) e₂

  relocate_rows-puts :
      (i : ℕ) (ss : List Segment) (j o : ℕ) (v : MaybeRelocatable) (flat flat' : List (Option Felt))
      → SameRows i ss
      → held ss j o ≡ some v
      → relocate_address (rel (pos (i + j)) o) table ≡ ok a
      → relocate_value v table ≡ ok w
      → relocate_rows table i ss flat ≡ ok flat'
      → Stands table a w flat'
  unfolding relocate_rows held
  relocate_rows-puts i [] j o v flat flat' same hv ha hw e = cc hv
  relocate_rows-puts i (s ∷ ss) zero o v flat flat' same hv ha hw e =
      let first : i + 0 ≡ i = omega arith in
      let none_before : o ≡ 0 + o = omega arith in
      bind-ok-elim (relocate_cells table i 0 s flat) _ e λ next e₁ e₂.
        relocate_rows-keeps (suc i) ss next flat' (later_rows i s ss same)
          (relocate_cells-puts table a w i 0 s o v flat next (first_row i s ss same) hv
            (subst (λ x. relocate_address (rel (pos i) x) table ≡ ok a) none_before
              (rw first at ha))
            hw e₁)
          e₂
  relocate_rows-puts i (s ∷ ss) (suc j) o v flat flat' same hv ha hw e =
      let shift : i + suc j ≡ suc i + j = omega arith in
      bind-ok-elim (relocate_cells table i 0 s flat) _ e λ next e₁ e₂.
        relocate_rows-puts (suc i) ss j o v next flat' (later_rows i s ss same) hv (rw shift at ha)
          hw e₂

module _ {Hint V : Type 0} ⦃F : FeltOps⦄ where
  relocate_memory-rows :
      (r r' : CairoRunner Hint V) (table : List ℕ)
      → relocate_memory r table ≡ ok r'
      → (relocate_rows table 0 r.vm.segments.memory.data_segments (none ∷ []) >>= λ flat.
          ok (record r { relocated_memory = flat }))
        ≡ ok r'
  unfolding relocate_memory
  relocate_memory-rows r r' table h = elim (List-cases r.relocated_memory) [
    | inl fresh ↦ rw (relocate_memory, fresh) at h
    | inr used ↦ cc (rw (relocate_memory, used.2) at h)
  ]

  -- Every value of the real segments stands, relocated, in the flat memory at the address that its
  -- own address is relocated to. The table is the one of `relocate_segments`, the sizes of the
  -- segments cover their values, and they add up to less than 2^64.
  pub relocate_memory-get_elem? :
      (r r' : CairoRunner Hint V) (sizes table : List ℕ)
      → r.vm.segments.segment_used_sizes ≡ some sizes
      → 1 + total_size r.vm.segments 0 sizes < word
      → ((j p : ℕ) (u : MaybeRelocatable)
          → value_at r.vm.segments.memory (rel (pos j) p) ≡ some u
          → InSegment r.vm.segments j p)
      → relocate_segments r.vm.segments ≡ ok table
      → relocate_memory r table ≡ ok r'
      → (i o : ℕ) (v : MaybeRelocatable) (a : ℕ) (w : Felt)
      → value_at r.vm.segments.memory (rel (pos i) o) ≡ some v
      → relocate_address (rel (pos i) o) table ≡ ok a
      → relocate_value v table ≡ ok w
      → get_elem? r'.relocated_memory a ≡ some (some w)
  unfolding relocate_memory value_at held Stands SameRows Same
  relocate_memory-get_elem? r r' sizes table used fits covered he h i o v a w hv ha hw =
      let ss = r.vm.segments.memory.data_segments in
      let same : SameRows table a w 0 ss = λ j p u hu hb.
        let e =
          relocate_address_injective r.vm.segments sizes table used fits he j p i o a
            (rw zero-add at hb) ha (covered j p u hu) (covered i o v hv) in
        let m = r.vm.segments.memory in
        let hu' : value_at m (rel (pos j) p) ≡ some u = hu in
        let q : u ≡ v = some-injective (sym hu' ∙ ap (value_at m) e ∙ hv) in
        subst (λ x. relocate_value x table ≡ ok w) (sym q) hw in
      bind-ok-elim (relocate_rows table 0 ss (none ∷ [])) _ (relocate_memory-rows r r' table h)
        λ flat e₁ e₂.
          subst (λ (x : CairoRunner Hint V). get_elem? x.relocated_memory a ≡ some (some w))
            (ok-injective e₂)
            (relocate_rows-puts table a w 0 ss i o v (none ∷ []) flat same hv
              (subst (λ x. relocate_address (rel (pos x) o) table ≡ ok a) (sym (zero-add i)) ha) hw
              e₁)

get_elem?-map :
    {A B : Type 0} (f : A → B) (xs : List A) (i : ℕ) {x : A}
    → get_elem? xs i ≡ some x
    → get_elem? (map f xs) i ≡ some (f x)
get_elem?-map f [] i h = cc h
get_elem?-map f (x ∷ xs) zero h = ap (λ y. some (f y)) (some-injective h)
get_elem?-map f (x ∷ xs) (suc i) h = get_elem?-map f xs i h

-- Sizes that were computed from the memory, without other sizes, cover its values.
pub used_sizes-InSegment :
    ⦃F : FeltOps⦄ (s : MemorySegmentManager)
    → s.segment_sizes ≡ []
    → s.segment_used_sizes ≡ some (map length s.memory.data_segments)
    → (j p : ℕ) (u : MaybeRelocatable) → value_at s.memory (rel (pos j) p) ≡ some u
    → InSegment s j p
unfolding value_at get_segment_size get_segment_used_size find
used_sizes-InSegment s none_set used j p u h =
    elim (Option-cases (get_elem? s.memory.data_segments j)) [
      | inl absent ↦ cc (rw absent at h)
      | inr there ↦ elim (Option-cases (get_elem? there.0 p)) [
        | inl missing ↦ cc (rw (there.1, missing) at h)
        | inr cell ↦ record {
          size = length there.0;
          sized =
              rw (get_segment_size, none_set, used)
                (get_elem?-map length s.memory.data_segments j there.1);
          within = get_elem?-lt there.0 p cell.1;
        }
      ]
    ]
