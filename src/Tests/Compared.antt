-- ===== src/Tests/Compared.antt =====
-- Two ranges that differ at their third value, with the second cell of both accessed.
use cairo_vm.Base.{
  ℕ, zero, suc, ◌<◌, ◌≡◌, refl, Bool, true, false, some, [], ◌∷◌, arith, get_elem?, wrapping_add,
}
use cairo_vm.Base.Int.{pos}
use cairo_vm.Types.Value.{rel, MaybeRelocatable, int, IsValue}
use cairo_vm.Memory.Cell.{new, mark_accessed}
use cairo_vm.Memory.Store.{Memory, Segment, new_memory}
use cairo_vm.Memory.Compare.{memcmp}
use cairo_vm.Memory.Compare.Values.{cell_of, Holds, FirstDifference, memcmp-FirstDifference}
use cairo_vm.Tests.Field.{felt_ops}

abbrev third : ℕ → ℕ → MaybeRelocatable
third n zero = int 12
third n (suc zero) = int 10
third n (suc (suc k)) = int n

abbrev second_accessed : ℕ → Bool
second_accessed zero = false
second_accessed (suc zero) = true
second_accessed (suc (suc k)) = false

abbrev cells_to : ℕ → Segment
cells_to n = new (int 12) ∷ mark_accessed (new (int 10)) ∷ new (int n) ∷ []

abbrev two_segments : Memory
two_segments = record new_memory { data_segments = cells_to 8 ∷ cells_to 9 ∷ [] }

third-IsValue : (n : ℕ) → n < 10 → (k : ℕ) → k < 3 → IsValue (third n k)
third-IsValue n h zero g = omega arith
third-IsValue n h (suc zero) g = omega arith
third-IsValue n h (suc (suc k)) g = omega (arith, h)

third-cells :
    (n k : ℕ)
    → k < 3
    → get_elem? (cells_to n) (wrapping_add 0 k) ≡ some (cell_of (second_accessed k) (third n k))
third-cells n zero h = refl
third-cells n (suc zero) h = refl
third-cells n (suc (suc zero)) h = refl
third-cells n (suc (suc (suc k))) h = absurd (omega (arith, h))

third-Holds : (n : ℕ) → n < 10 → Holds (cells_to n) 0 3 second_accessed (third n)
third-Holds n h = record { fits = third-IsValue n h; cells = third-cells n }

memcmp-FirstDifference_example :
    FirstDifference second_accessed
      (third 8)
      (third 9)
      3
      (memcmp two_segments (rel (pos 0) 0) (rel (pos 1) 0) 3).0
      (memcmp two_segments (rel (pos 0) 0) (rel (pos 1) 0) 3).1
memcmp-FirstDifference_example =
    memcmp-FirstDifference two_segments (rel (pos 0) 0) (rel (pos 1) 0) 3 (cells_to 8) (cells_to 9)
      second_accessed (third 8) (third 9) refl refl (third-Holds 8 (omega arith))
      (third-Holds 9 (omega arith))

differ_at_two : (memcmp two_segments (rel (pos 0) 0) (rel (pos 1) 0) 3).1 ≡ 2
unfolding memcmp new mark_accessed
differ_at_two = refl
