-- ===== src/Memory/AddressSet.antt =====
-- vm/src/vm/vm_memory/memory.rs, `AddressSet`: a bit vector for each segment.
use cairo_vm.Base.{
  ℕ, ◌+◌, Bool, true, false, Option, none, some, List, [], ◌∷◌, get_elem?, set, grow, ◌≡◌, arith,
  get_elem?-set_self, length-grow_ge,
}
use cairo_vm.Base.Int.{ℤ, pos, negsuc}
use cairo_vm.Types.Value.{Relocatable, rel}

abbrev pub AddressSet : Type 0
AddressSet = List (List Bool)

abbrev row : Option (List Bool) → List Bool
row none = []
row (some bits) = bits

abbrev bit : Option Bool → Bool
bit none = false
bit (some b) = b

unfoldable pub contains_at : AddressSet → ℤ → ℕ → Bool
contains_at s (negsuc n) o = false
contains_at s (pos i) o = bit (get_elem? (row (get_elem? s i)) o)

-- An address in a temporary segment is never a member.
unfoldable pub contains : AddressSet → Relocatable → Bool
unfolding contains_at
contains s a = contains_at s a.segment_index a.offset

-- Both vectors are resized only when they are too short.
unfoldable pub extend_at : AddressSet → ℤ → ℕ → AddressSet
extend_at s (negsuc n) o = s
extend_at s (pos i) o =
    let s' = grow s (i + 1) [] in set s' i (set (grow (row (get_elem? s' i)) (o + 1) false) o true)

unfoldable pub extend : AddressSet → List Relocatable → AddressSet
unfolding extend_at
extend s [] = s
extend s (a ∷ rest) = extend (extend_at s a.segment_index a.offset) rest

row_lem :
    (bits : List Bool) (o : ℕ) → bit (get_elem? (set (grow bits (o + 1) false) o true) o) ≡ true
row_lem bits o = rw (
    get_elem?-set_self (grow bits (o + 1) false) o true
      (omega (arith, length-grow_ge bits (o + 1) false)))

contains_at-extend_at :
    (s : AddressSet) (i o : ℕ) → contains_at (extend_at s (pos i) o) (pos i) o ≡ true
unfolding contains_at extend_at
contains_at-extend_at s i o =
    rw
      (get_elem?-set_self (grow s (i + 1) []) i
        (set (grow (row (get_elem? (grow s (i + 1) []) i)) (o + 1) false) o true)
        (omega (arith, length-grow_ge s (i + 1) [])))
      (row_lem (row (get_elem? (grow s (i + 1) []) i)) o)

-- An address of a real segment is a member once it has been added.
pub contains-extend_one :
    (s : AddressSet) (i o : ℕ) → contains (extend s (rel (pos i) o ∷ [])) (rel (pos i) o) ≡ true
unfolding contains extend
contains-extend_one s i o = contains_at-extend_at s i o
