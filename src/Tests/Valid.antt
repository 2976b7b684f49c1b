-- ===== src/Tests/Valid.antt =====
-- A test of the invariant of memory, for memories that are written out.
use cairo_vm.Base.{
  ℕ, zero, suc, ◌^◌, ◌≡◌, sym, ◌∙◌, Bool, true, ◌&&◌, Option, none, some, List, [], ◌∷◌, arith, ltb,
  word, get_elem?,
}
use cairo_vm.Base.Int.{ℤ, pos, negsuc}
use cairo_vm.Base.Result.{and_then}
use cairo_vm.Types.Felt.{FeltOps, cairo_prime}
use cairo_vm.Types.Value.{rel, MaybeRelocatable, relocatable_value, int, IsIsize, IsValue}
use cairo_vm.Memory.Cell.{get_value}
use cairo_vm.Memory.Store.{Memory, Segment, value_at, find_rule}
use cairo_vm.Memory.Valid.{IsValid}

abbrev small_index : ℤ → Bool
small_index (pos n) = ltb n (2 ^ 63)
small_index (negsuc n) = ltb n (2 ^ 63)

abbrev fits : Option MaybeRelocatable → Bool
fits none = true
fits (some (int x)) = ltb x cairo_prime
fits (some (relocatable_value r)) = small_index r.segment_index && ltb r.offset word

small_index-IsIsize : (s : ℤ) → small_index s ≡ true → IsIsize s
small_index-IsIsize (pos n) h = ground arith
small_index-IsIsize (negsuc n) h = ground arith

fits-IsValue : (w : MaybeRelocatable) → fits (some w) ≡ true → IsValue w
fits-IsValue (int x) h = ground arith
fits-IsValue (relocatable_value r) h = record {
  segment = small_index-IsIsize r.segment_index (ground arith);
  offset = ground arith;
}

module _ ⦃F : FeltOps⦄ where
  abbrev cells_fit : Segment → Bool
  cells_fit [] = true
  cells_fit (c ∷ cs) = fits (get_value c) && cells_fit cs

  abbrev segments_fit : List Segment → Bool
  segments_fit [] = true
  segments_fit (s ∷ ss) = cells_fit s && segments_fit ss

  cells_fit-at :
      (s : Segment) (o : ℕ) (w : MaybeRelocatable)
      → cells_fit s ≡ true
      → and_then (get_elem? s o) get_value ≡ some w
      → IsValue w
  cells_fit-at [] o w h e = cc e
  cells_fit-at (c ∷ cs) zero w h e = fits-IsValue w (ground (arith, e))
  cells_fit-at (c ∷ cs) (suc o) w h e = cells_fit-at cs o w (ground arith) e

  segments_fit-at :
      (ss : List Segment) (i o : ℕ) (w : MaybeRelocatable)
      → segments_fit ss ≡ true
      → and_then (and_then (get_elem? ss i) (λ s. get_elem? s o)) get_value ≡ some w
      → IsValue w
  segments_fit-at [] i o w h e = cc e
  segments_fit-at (s ∷ ss) zero o w h e = cells_fit-at s o w (ground arith) e
  segments_fit-at (s ∷ ss) (suc i) o w h e = segments_fit-at ss i o w (ground arith) e

  -- A memory without relocation rules whose cells all pass the test is valid.
  pub segments_fit-IsValid :
      (m : Memory)
      → m.relocation_rules ≡ []
      → segments_fit m.data_segments ≡ true
      → segments_fit m.temp_data ≡ true
      → IsValid m
  unfolding value_at find_rule
  segments_fit-IsValid m rules h h' = record {
    stored = λ r w e. at_index r.segment_index r.offset w e;
    rules = λ k base e. absurd (let p : none ≡ some base = sym (rw rules) ∙ e in cc p);
  }
    where
      at_index : (s : ℤ) (o : ℕ) (w : MaybeRelocatable) → value_at m (rel s o) ≡ some w → IsValue w
      at_index (pos n) o w e = segments_fit-at m.data_segments n o w h e
      at_index (negsuc n) o w e = segments_fit-at m.temp_data n o w h' e
