-- ===== src/Segments/Layout.antt =====
-- The relocation table of vm/src/vm/vm_memory/memory_segments.rs (`relocate_segments`) lays the
-- segments out one after the other.
use cairo_vm.Base.{
  ℕ, zero, suc, ◌+◌, ◌<◌, ◌≤◌, ◌≡◌, sym, ap, subst, Option, none, some, List, [], ◌∷◌, arith,
  get_elem?, word, wrapping_add,
}
use native.Mathlib.Decide.{dec_lt}
use native.Mathlib.Nat.{zero-add}
use mathlib.Core.Path.{ap₂}
use cairo_vm.Base.Int.{pos}
use cairo_vm.Base.Result.{ok, ok_or, bind-ok-elim, ok_or-eq-ok}
use cairo_vm.Types.Value.{rel}
use cairo_vm.Types.Errors.{MemoryError}
use cairo_vm.Types.Relocatable.{relocate_address}
use cairo_vm.Segments.{MemorySegmentManager, get_segment_size, relocate_loop, relocate_segments}

abbrev size_or_zero : Option ℕ → ℕ
size_or_zero none = 0
size_or_zero (some n) = n

-- The sum of the sizes of the segments from `i` on, one for each entry of the list.
unfoldable pub total_size : MemorySegmentManager → ℕ → List ℕ → ℕ
total_size s i [] = 0
total_size s i (_ ∷ rest) = size_or_zero (get_segment_size s i) + total_size s (suc i) rest

-- A table from segment `i` and address `base` on: each segment starts where the one before ends.
data Table (s : MemorySegmentManager) (end : ℕ) : ℕ → ℕ → List ℕ → Type 0 where
  nil : {i : ℕ} → Table s end i end []
  cons :
      {i base : ℕ} {tail : List ℕ} (n : ℕ)
      → get_segment_size s i ≡ some n
      → Table s end (suc i) (base + n) tail
      → Table s end i base (base ∷ tail)

module _ (s : MemorySegmentManager) where
  relocate_loop-Table :
      (i : ℕ) (rest : List ℕ) (base : ℕ) (table : List ℕ)
      → relocate_loop s i rest base ≡ ok table
      → base + total_size s i rest < word
      → Table s (base + total_size s i rest) i base table
  unfolding relocate_loop total_size
  relocate_loop-Table i [] base table h fits =
      let p : base + 0 ≡ base = omega arith in rw p (subst (Table s base i base) (cc h) nil)
  relocate_loop-Table i (_ ∷ rest) base table h fits =
      bind-ok-elim (ok_or (get_segment_size s i) MemoryError.missing_segment_used_sizes) _ h
        λ n e h₁.
          bind-ok-elim (relocate_loop s (suc i) rest (wrapping_add base n)) _ h₁ λ tail e₂ h₂.
            let found = ok_or-eq-ok (get_segment_size s i) _ e in
            let fits' : base + (n + total_size s (suc i) rest) < word = rw found at fits in
            let sum : wrapping_add base n ≡ base + n = omega arith in
            let assoc : base + n + total_size s (suc i) rest
                ≡ base + (n + total_size s (suc i) rest) =
              omega arith in
            rw found (
              subst (Table s _ i base) (cc h₂) (
                cons n found (
                  rw assoc at (
                    relocate_loop-Table (suc i) rest (base + n) tail (rw sum at e₂)
                      (omega arith)))))

  Table-le : {end i base : ℕ} {table : List ℕ} → Table s end i base table → base ≤ end
  Table-le nil = omega arith
  Table-le (cons n e t) = omega (arith, Table-le t)

  -- An entry of the table, with the size of its segment, lies between the base and the end.
  Table-bounds :
      {end i base : ℕ} {table : List ℕ}
      → Table s end i base table
      → (j start size : ℕ) → get_elem? table j ≡ some start
      → get_segment_size s (i + j) ≡ some size
      → (base ≤ start) × (start + size ≤ end)
  Table-bounds nil j start size here sized = cc here
  Table-bounds {i} (cons n e t) zero start size here sized =
      let p : i + 0 ≡ i = omega arith in ground (arith, Table-le t, rw p at sized)
  Table-bounds {i} (cons n e t) (suc j) start size here sized =
      let p : i + suc j ≡ suc i + j = omega arith in
      omega (arith, Table-bounds t j start size here (rw p at sized))

  -- An earlier segment ends before a later one starts.
  Table-ordered :
      {end i base : ℕ} {table : List ℕ}
      → Table s end i base table
      → (j k start start' size size' : ℕ) → j < k
      → get_elem? table j ≡ some start
      → get_elem? table k ≡ some start'
      → get_segment_size s (i + j) ≡ some size
      → get_segment_size s (i + k) ≡ some size'
      → start + size ≤ start'
  Table-ordered nil j k start start' size size' lt here here' sized sized' = cc here
  Table-ordered (cons n e t) j zero start start' size size' lt here here' sized sized' =
      absurd (omega arith)
  Table-ordered {i} (cons n e t) zero (suc k) start start' size size' lt here here' sized sized' =
      let p : i + 0 ≡ i = omega arith in
      let q : i + suc k ≡ suc i + k = omega arith in
      ground (arith, Table-bounds t k start' size' here' (rw q at sized'), rw p at sized)
  Table-ordered {i} (cons n e t) (suc j) (suc k) start start' size size' lt here here' sized
        sized' =
      let p : i + suc j ≡ suc i + j = omega arith in
      let q : i + suc k ≡ suc i + k = omega arith in
      Table-ordered t j k start start' size size' (omega arith) here here' (rw p at sized)
        (rw q at sized')

-- Two addresses of real segments, each inside its segment.
pub record InSegment (s : MemorySegmentManager) (i o : ℕ) : Type 0 where
  pub size : ℕ
  pub sized : get_segment_size s i ≡ some size
  pub within : o < size

module _ (s : MemorySegmentManager) (sizes table : List ℕ)
    (used : s.segment_used_sizes ≡ some sizes) (fits : 1 + total_size s 0 sizes < word)
    (h : relocate_segments s ≡ ok table) where
  relocate_segments-Table : Table s (1 + total_size s 0 sizes) 0 1 table
  unfolding relocate_segments
  relocate_segments-Table =
      relocate_loop-Table s 0 sizes 1 table (rw (used, relocate_segments) at h) fits

  flat :
      (i o x : ℕ)
      → relocate_address (rel (pos i) o) table ≡ ok x
      → InSegment s i o
      → (start : ℕ) × (get_elem? table i ≡ some start) × (x ≡ start + o)
  unfolding relocate_address
  flat i o x e inside =
      bind-ok-elim (ok_or (get_elem? table i) MemoryError.relocation) _ e λ start e₁ e₂.
        let here = ok_or-eq-ok (get_elem? table i) _ e₁ in
        let bounds =
          Table-bounds s relocate_segments-Table i start inside.size here
            (rw zero-add inside.sized) in
        let sum : start + o < word = omega (arith, inside.within) in
        let x_eq : wrapping_add start o ≡ x = ground arith in (start, here, omega arith)

  ordered :
      (i o j p x y : ℕ)
      → i < j
      → relocate_address (rel (pos i) o) table ≡ ok x
      → relocate_address (rel (pos j) p) table ≡ ok y
      → InSegment s i o
      → InSegment s j p
      → x < y
  ordered i o j p x y lt ex ey ini inj =
      let (start, here, xe) = flat i o x ex ini in
      let (start', here', ye) = flat j p y ey inj in
      let apart =
        Table-ordered s relocate_segments-Table i j start start' ini.size inj.size lt here here'
          (rw zero-add ini.sized) (rw zero-add inj.sized) in
      omega (arith, ini.within)

  -- Relocation keeps addresses apart: if the sizes add up to less than 2^64, two addresses inside
  -- their segments that are relocated to one address of the flat memory are one address.
  pub relocate_address_injective :
      (i o j p x : ℕ)
      → relocate_address (rel (pos i) o) table ≡ ok x
      → relocate_address (rel (pos j) p) table ≡ ok x
      → InSegment s i o
      → InSegment s j p
      → rel (pos i) o ≡ rel (pos j) p
  relocate_address_injective i o j p x ei ej ini inj = elim (dec_lt i j) [
    | yes lt ↦ absurd (omega (arith, ordered i o j p x x lt ei ej ini inj))
    | no ge ↦ elim (dec_lt j i) [
      | yes gt ↦ absurd (omega (arith, ordered j p i o x x gt ej ei inj ini))
      | no le ↦
          let e : i ≡ j = omega arith in
          let (start, here, xe) = flat i o x ei ini in
          let (start', here', ye) = flat j p x ej inj in
          let q : start ≡ start' = cc (sym here, ap (get_elem? table) e, here') in
          let r : o ≡ p = omega arith in ap₂ (λ a b. rel (pos a) b) e r
    ]
  ]
