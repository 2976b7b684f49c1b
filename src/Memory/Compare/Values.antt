-- ===== src/Memory/Compare/Values.antt =====
-- vm/src/vm/vm_memory/memory.rs: what `memcmp` says of the values in two ranges.
use Prim.Native.Nat.{Ordering}
use cairo_vm.Base.{
  ℕ, ◌<◌, ◌≡◌, ◌≢◌, sym, ap, ◌∙◌, Bool, true, false, some, arith, ◌⊎◌, inl, inr, get_elem?,
  wrapping_add, some-injective,
}
use cairo_vm.Types.Felt.{FeltOps}
use cairo_vm.Types.Value.{Relocatable, MaybeRelocatable, IsValue}
use cairo_vm.Memory.Cell.{
  MemoryCell, new, get_value, mark_accessed, get_value-new, get_value-mark_accessed,
}
use cairo_vm.Memory.Store.{Memory, Segment, segments_of, segment_key}
use cairo_vm.Memory.Compare.{
  memcmp, cmp_cells, cmp_cells_refl, left, right, Verdict, memcmp-Verdict,
}

module _ ⦃F : FeltOps⦄ where
  -- The cell of a value, accessed or not.
  abbrev pub cell_of : Bool → MaybeRelocatable → MemoryCell
  cell_of true v = mark_accessed (new v)
  cell_of false v = new v

  get_value-cell_of :
      (b : Bool) (v : MaybeRelocatable) → IsValue v → get_value (cell_of b v) ≡ some v
  get_value-cell_of true v h = get_value-mark_accessed (new v) ∙ get_value-new v h
  get_value-cell_of false v h = get_value-new v h

  -- Values from an offset of a segment on, with the marks of their cells.
  pub record Holds (s : Segment) (offset len : ℕ) (marks : ℕ → Bool) (values : ℕ → MaybeRelocatable)
      : Type 0 where
    pub fits : (k : ℕ) → k < len → IsValue (values k)
    pub cells :
        (k : ℕ)
        → k < len
        → get_elem? s (wrapping_add offset k) ≡ some (cell_of (marks k) (values k))

  -- The first position at which two sequences differ, with the order of the cells of their values
  -- there, or their length.
  pub record FirstDifference (marks : ℕ → Bool) (values others : ℕ → MaybeRelocatable) (len : ℕ)
      (order : Ordering) (place : ℕ) : Type 0 where
    pub agree : (k : ℕ) → k < place → values k ≡ others k
    pub decided :
        ((order ≡ Ordering.eq) × (place ≡ len))
        ⊎ ((order ≢ Ordering.eq)
            × (values place ≢ others place)
            × (place < len)
            × (cmp_cells
                  (some (cell_of (marks place) (values place)))
                  (some (cell_of (marks place) (others place)))
                ≡ order))

  module _ (ls rs : Segment) (lhs rhs len : ℕ) (marks : ℕ → Bool)
      (values others : ℕ → MaybeRelocatable) (hl : Holds ls lhs len marks values)
      (hr : Holds rs rhs len marks others) where
    same_values :
        (k : ℕ) → k < len → left ls rs lhs rhs k ≡ right ls rs lhs rhs k → values k ≡ others k
    same_values k h e =
        let a = get_value-cell_of (marks k) (values k) (hl.fits k h) in
        let b = get_value-cell_of (marks k) (others k) (hr.fits k h) in
        let c : cell_of (marks k) (values k) ≡ cell_of (marks k) (others k) =
          some-injective (sym (hl.cells k h) ∙ e ∙ hr.cells k h) in
        some-injective (sym a ∙ ap get_value c ∙ b)

    same_cells :
        (k : ℕ) → k < len → values k ≡ others k → left ls rs lhs rhs k ≡ right ls rs lhs rhs k
    same_cells k h e = hl.cells k h ∙ ap (λ v. some (cell_of (marks k) v)) e ∙ sym (hr.cells k h)

    Verdict-FirstDifference :
        (order : Ordering) (place : ℕ)
        → Verdict ls rs lhs rhs 0 len order place
        → FirstDifference marks values others len order place
    Verdict-FirstDifference order place v = elim v.decided [
      | inl (e, f) ↦ record {
        agree = λ k h. same_values k (omega (arith, f)) (v.before k (omega arith) h);
        decided = inl (e, f);
      }
      | inr (e, f, g) ↦ record {
        agree = λ k h. same_values k (omega (arith, g)) (v.before k (omega arith) h);
        decided = inr (
          f,
          (λ q. f (
              sym e
              ∙ ap (cmp_cells (left ls rs lhs rhs place)) (sym (same_cells place g q))
              ∙ cmp_cells_refl (left ls rs lhs rhs place))),
          g,
          ap (λ a. cmp_cells a (some (cell_of (marks place) (others place))))
                (sym (hl.cells place g))
              ∙ ap (cmp_cells (left ls rs lhs rhs place)) (sym (hr.cells place g))
              ∙ e,
        );
      }
    ]

  -- Of two ranges of values in which the cells at each position are both accessed or neither is,
  -- `memcmp` returns the first position where the values differ, with the order of
  -- their cells there, which is not `Equal`; or `Equal` and the length if they agree throughout.
  pub memcmp-FirstDifference :
      (m : Memory) (lhs rhs : Relocatable) (len : ℕ) (ls rs : Segment) (marks : ℕ → Bool)
      (values others : ℕ → MaybeRelocatable)
      → get_elem? (segments_of m lhs.segment_index) (segment_key lhs.segment_index) ≡ some ls
      → get_elem? (segments_of m rhs.segment_index) (segment_key rhs.segment_index) ≡ some rs
      → Holds ls lhs.offset len marks values
      → Holds rs rhs.offset len marks others
      → FirstDifference marks values others len (memcmp m lhs rhs len).0 (memcmp m lhs rhs len).1
  memcmp-FirstDifference m lhs rhs len ls rs marks values others el er hl hr =
      Verdict-FirstDifference ls rs lhs.offset rhs.offset len marks values others hl hr
        (memcmp m lhs rhs len).0 (memcmp m lhs rhs len).1 (memcmp-Verdict m lhs rhs len ls rs el er)
