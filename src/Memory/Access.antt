-- ===== src/Memory/Access.antt =====
-- Access marks of vm/src/vm/vm_memory/memory.rs: `mark_as_accessed` and the count for a segment.
use cairo_vm.Base.{
  ℕ, suc, ◌≤◌, ◌≡◌, refl, not, ◌&&◌, Option, some, List, [], ◌∷◌, arith, ◌==◌, if◌then◌else◌,
  Bool-cases, Option-cases, inl, inr, length, get_elem?, set, get_elem?-set_self, get_elem?-set_ne,
  get_elem?-lt,
}
use cairo_vm.Base.Int.{ℤ, pos, negsuc}
use cairo_vm.Base.Result.{and_then}
use cairo_vm.Types.Felt.{FeltOps}
use cairo_vm.Types.Value.{Relocatable, rel, MaybeRelocatable}
use cairo_vm.Memory.Cell.{
  MemoryCell, get_value, mark_accessed, is_accessed, is_none, get_value-mark_accessed,
}
use cairo_vm.Memory.Store.{Memory, Segment, value_at, mark_row, mark_as_accessed}

-- `get_amount_of_accessed_addresses_for_segment`
unfoldable pub count_accessed : Segment → ℕ
count_accessed [] = 0
count_accessed (c ∷ cs) =
    let rest = count_accessed cs in if not (is_none c) && is_accessed c then suc rest else rest

unfoldable pub get_amount_of_accessed_addresses_for_segment : Memory → ℕ → Option ℕ
unfolding count_accessed
get_amount_of_accessed_addresses_for_segment m i =
    and_then (get_elem? m.data_segments i) (λ segment. some (count_accessed segment))

-- No more cells are counted than the segment has.
pub count_accessed-le : (segment : Segment) → count_accessed segment ≤ length segment
unfolding count_accessed
count_accessed-le [] = omega arith
count_accessed-le (c ∷ cs) = ground (arith, count_accessed-le cs)

module _ ⦃F : FeltOps⦄ where
  abbrev value_of : List Segment → ℕ → ℕ → Option MaybeRelocatable
  value_of segments i j =
      and_then (and_then (get_elem? segments i) (λ segment. get_elem? segment j)) get_value

  value_in-mark :
      (segment : Segment) (j k : ℕ) (c : MemoryCell)
      → get_elem? segment j ≡ some c
      → and_then (get_elem? (set segment j (mark_accessed c)) k) get_value
        ≡ and_then (get_elem? segment k) get_value
  value_in-mark segment j k c here = elim (Bool-cases (j == k)) [
    | inl e ↦
        let p : j ≡ k = ground arith in
        rw (← p, get_elem?-set_self segment j (mark_accessed c) (get_elem?-lt segment j here), here)
          (get_value-mark_accessed c)
    | inr d ↦ rw (get_elem?-set_ne segment j k (mark_accessed c) (ground arith))
  ]

  value_of-mark_row :
      (segments : List Segment) (i j i' j' : ℕ)
      → value_of (mark_row segments i j) i' j' ≡ value_of segments i' j'
  value_of-mark_row segments i j i' j' = elim (Option-cases (get_elem? segments i)) [
    | inl gone ↦ rw (gone, mark_row)
    | inr (segment, found) ↦ elim (Option-cases (get_elem? segment j)) [
      | inl gone ↦ rw (found, gone, mark_row)
      | inr (c, here) ↦ elim (Bool-cases (i == i')) [
        | inl e ↦
            let p : i ≡ i' = ground arith in
            rw
              (
                found,
                here,
                mark_row,
                ← p,
                get_elem?-set_self segments i (set segment j (mark_accessed c))
                    (get_elem?-lt segments i found),
                found,
              )
              (value_in-mark segment j j' c here)
        | inr d ↦ rw (
          found,
          here,
          mark_row,
          get_elem?-set_ne segments i i' (set segment j (mark_accessed c)) (ground arith),
        )
      ]
    ]
  ]

  value_of-marked :
      (m : Memory) (s t : ℤ) (o p : ℕ)
      → value_at (mark_as_accessed m (rel s o)) (rel t p) ≡ value_at m (rel t p)
  unfolding value_at mark_as_accessed
  value_of-marked m (pos a) (pos b) o p = value_of-mark_row m.data_segments a o b p
  value_of-marked m (pos a) (negsuc b) o p = refl
  value_of-marked m (negsuc a) (pos b) o p = refl
  value_of-marked m (negsuc a) (negsuc b) o p = value_of-mark_row m.temp_data a o b p

  -- Marking an address as accessed changes no value.
  pub value_at-mark_as_accessed :
      (m : Memory) (a r : Relocatable) → value_at (mark_as_accessed m a) r ≡ value_at m r
  value_at-mark_as_accessed m a r =
      value_of-marked m a.segment_index r.segment_index a.offset r.offset
