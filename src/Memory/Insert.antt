-- ===== src/Memory/Insert.antt =====
-- What `insert` of vm/src/vm/vm_memory/memory.rs does to the values in memory.
use cairo_vm.Base.{
  ℕ, zero, suc, ◌+◌, ◌<◌, ◌≡◌, ◌≢◌, refl, sym, ap, ◌∙◌, Option, none, some, List, [], ◌∷◌, arith,
  ◌==◌, Bool-cases, inl, inr, length, get_elem?, set, grow, get_elem?-set_self, get_elem?-set_ne,
  get_elem?-lt, length-grow_ge,
}
use cairo_vm.Base.Int.{ℤ, pos, negsuc}
use cairo_vm.Base.Result.{ok, ok_or, and_then, >>=-eq-ok, ok_or-eq-ok}
use cairo_vm.Types.Felt.{FeltOps}
use cairo_vm.Types.Value.{Relocatable, rel, MaybeRelocatable, int, eqb_iff, IsValue}
use mathlib.Core.Path.{ap₂}
use cairo_vm.Memory.AddressSet.{AddressSet}
use cairo_vm.Memory.Cell.{MemoryCell, empty, new, get_value, get_value-empty, get_value-new}
use cairo_vm.Memory.Store.{
  Memory, Segment, segment_key, segments_of, with_segments, make_room, write_cell, value_at,
  validate_memory_cell, insert,
}

module _ ⦃F : FeltOps⦄ where
  -- The value at an offset of one segment, and at a pair of indices.
  abbrev value_in : Segment → ℕ → Option MaybeRelocatable
  value_in segment j = and_then (get_elem? segment j) get_value

  abbrev value_of : List Segment → ℕ → ℕ → Option MaybeRelocatable
  value_of segments i j =
      and_then (and_then (get_elem? segments i) (λ segment. get_elem? segment j)) get_value

  -- New cells are empty, so growing a segment adds no value.
  value_in-grow :
      (segment : Segment) (n j : ℕ) → value_in (grow segment n empty) j ≡ value_in segment j
  value_in-grow segment zero j = refl
  value_in-grow [] (suc n) zero = get_value-empty
  value_in-grow [] (suc n) (suc j) = value_in-grow [] n j
  value_in-grow (c ∷ cs) (suc n) zero = refl
  value_in-grow (c ∷ cs) (suc n) (suc j) = value_in-grow cs n j

  value_in-make_room :
      (segment roomy : Segment) (o : ℕ)
      → make_room segment o ≡ ok roomy
      → (j : ℕ) → value_in roomy j ≡ value_in segment j
  unfolding make_room
  value_in-make_room segment roomy o h j = ground (arith, value_in-grow segment (o + 1) j)

  make_room-lt :
      (segment roomy : Segment) (o : ℕ) → make_room segment o ≡ ok roomy → o < length roomy
  unfolding make_room
  make_room-lt segment roomy o h = ground (arith, length-grow_ge segment (o + 1) empty)

  abbrev cell_or : Option MemoryCell → MemoryCell
  cell_or none = empty
  cell_or (some c) = c

  abbrev value_or : Option MaybeRelocatable → MaybeRelocatable
  value_or none = int 0
  value_or (some v) = v

  -- Writing a cell that has room: the value stands there, and no other cell changes.
  value_in-write_cell :
      (key : Relocatable) (val : MaybeRelocatable) (roomy written : Segment)
      → IsValue val
      → write_cell key val roomy ≡ ok written
      → value_in written key.offset ≡ some val
  unfolding write_cell
  value_in-write_cell key val roomy written hv h = ground (
    arith,
    get_value-new val hv,
    get_elem?-set_self roomy key.offset (new val),
    get_elem?-lt roomy key.offset {x = cell_or (get_elem? roomy key.offset)},
    eqb_iff (value_or (get_value (cell_or (get_elem? roomy key.offset)))) val,
  )

  value_in-write_cell_ne :
      (key : Relocatable) (val : MaybeRelocatable) (roomy written : Segment)
      → write_cell key val roomy ≡ ok written
      → (j : ℕ) → key.offset ≢ j
      → value_in written j ≡ value_in roomy j
  unfolding write_cell
  value_in-write_cell_ne key val roomy written h j ne =
      ground (arith, get_elem?-set_ne roomy key.offset j (new val) ne)

  -- A cell that has a value is written only with that value.
  value_in-write_cell_old :
      (key : Relocatable) (val : MaybeRelocatable) (roomy written : Segment) (w : MaybeRelocatable)
      → write_cell key val roomy ≡ ok written
      → value_in roomy key.offset ≡ some w
      → w ≡ val
  unfolding write_cell
  value_in-write_cell_old key val roomy written w h here = ground (arith, eqb_iff w val)

  value_in-write_cell_keep :
      (key : Relocatable) (val : MaybeRelocatable) (roomy written : Segment) (w : MaybeRelocatable)
      → write_cell key val roomy ≡ ok written
      → value_in roomy key.offset ≡ some w
      → value_in written key.offset ≡ some w
  unfolding write_cell
  value_in-write_cell_keep key val roomy written w h here = ground arith

  -- Validation only records addresses.
  validate_memory_cell-frame :
      (m m' : Memory) (key : Relocatable)
      → validate_memory_cell m key ≡ ok m'
      → m' ≡ record m { validated_addresses = m'.validated_addresses }
  unfolding validate_memory_cell
  validate_memory_cell-frame m m' key h = ground arith

  -- The steps of a successful insertion.
  pub record Inserted (m : Memory) (key : Relocatable) (val : MaybeRelocatable) (m' : Memory)
      : Type 0 where
    pub segment : Segment
    pub roomy : Segment
    pub written : Segment
    pub found :
        get_elem? (segments_of m key.segment_index) (segment_key key.segment_index) ≡ some segment
    pub room : make_room segment key.offset ≡ ok roomy
    pub write : write_cell key val roomy ≡ ok written
    pub result :
        m'
        ≡ record (with_segments m key.segment_index
            (set (segments_of m key.segment_index) (segment_key key.segment_index) written)) {
              validated_addresses = m'.validated_addresses;
            }

  pub insert-Inserted :
      (m m' : Memory) (key : Relocatable) (val : MaybeRelocatable)
      → insert m key val ≡ ok m'
      → Inserted m key val m'
  unfolding insert
  insert-Inserted m m' key val h =
      let (segment, e₁, h₁) =
        >>=-eq-ok
          (ok_or (get_elem? (segments_of m key.segment_index) (segment_key key.segment_index)) _) _
          h in
      let (roomy, e₂, h₂) = >>=-eq-ok (make_room segment key.offset) _ h₁ in
      let (written, e₃, h₃) = >>=-eq-ok (write_cell key val roomy) _ h₂ in
      record {
        segment = segment;
        roomy = roomy;
        written = written;
        found = ok_or-eq-ok _ _ e₁;
        room = e₂;
        write = e₃;
        result = validate_memory_cell-frame _ m' key h₃;
      }

  value_of-set_self :
      (segments : List Segment) (i j : ℕ) {segment : Segment} (written : Segment)
      → get_elem? segments i ≡ some segment
      → value_of (set segments i written) i j ≡ value_in written j
  value_of-set_self segments i j written found =
      rw (get_elem?-set_self segments i written (get_elem?-lt segments i found))

  value_of-set_ne :
      (segments : List Segment) (i j i' j' : ℕ) (segment written : Segment)
      → get_elem? segments i ≡ some segment
      → ((k : ℕ) → j ≢ k → value_in written k ≡ value_in segment k)
      → (i ≡ i' → j ≢ j')
      → value_of (set segments i written) i' j' ≡ value_of segments i' j'
  value_of-set_ne segments i j i' j' segment written found same apart =
      elim (Bool-cases (i == i')) [
        | inl e ↦
            let p : i ≡ i' = ground arith in
            rw (← p)
              (value_of-set_self segments i j' written found ∙ same j' (apart p) ∙ (rw found))
        | inr d ↦ rw (get_elem?-set_ne segments i i' written (ground arith))
      ]

  -- One segment of one of the two vectors is replaced.
  abbrev replaced : Memory → ℤ → Segment → AddressSet → Memory
  replaced m s written valid =
      record (with_segments m s (set (segments_of m s) (segment_key s) written)) {
        validated_addresses = valid;
      }

  value_of-replaced_self :
      (m : Memory) (s : ℤ) (o : ℕ) {segment : Segment} (written : Segment) (valid : AddressSet)
      → get_elem? (segments_of m s) (segment_key s) ≡ some segment
      → value_of (segments_of (replaced m s written valid) s) (segment_key s) o ≡ value_in written o
  value_of-replaced_self m (pos a) o written valid found =
      value_of-set_self m.data_segments a o written found
  value_of-replaced_self m (negsuc a) o written valid found =
      value_of-set_self m.temp_data a o written found

  value_of-replaced_ne :
      (m : Memory) (s t : ℤ) (o p : ℕ) (segment written : Segment) (valid : AddressSet)
      → get_elem? (segments_of m s) (segment_key s) ≡ some segment
      → ((k : ℕ) → o ≢ k → value_in written k ≡ value_in segment k)
      → rel t p ≢ rel s o
      → value_of (segments_of (replaced m s written valid) t) (segment_key t) p
        ≡ value_of (segments_of m t) (segment_key t) p
  value_of-replaced_ne m (pos a) (pos b) o p segment written valid found same ne =
      value_of-set_ne m.data_segments a o b p segment written found same
        (λ e f. ne (sym (ap₂ (λ x y. rel (pos x) y) e f)))
  value_of-replaced_ne m (pos a) (negsuc b) o p segment written valid found same ne = refl
  value_of-replaced_ne m (negsuc a) (pos b) o p segment written valid found same ne = refl
  value_of-replaced_ne m (negsuc a) (negsuc b) o p segment written valid found same ne =
      value_of-set_ne m.temp_data a o b p segment written found same
        (λ e f. ne (sym (ap₂ (λ x y. rel (negsuc x) y) e f)))

  module _ {m m' : Memory} {key : Relocatable} {val : MaybeRelocatable}
      (s : Inserted m key val m') where
    open s use {segment, roomy, written, found, room, write, result}

    untouched : (k : ℕ) → key.offset ≢ k → value_in written k ≡ value_in segment k
    untouched k ne =
        value_in-write_cell_ne key val roomy written write k ne
        ∙ value_in-make_room segment roomy key.offset room k

    pub value_at-Inserted_self : IsValue val → value_at m' key ≡ some val
    unfolding value_at
    value_at-Inserted_self hv =
        ap (λ x. value_at x key) result
        ∙ value_of-replaced_self m key.segment_index key.offset written m'.validated_addresses found
        ∙ value_in-write_cell key val roomy written hv write

    pub value_at-Inserted_ne : (r : Relocatable) → r ≢ key → value_at m' r ≡ value_at m r
    unfolding value_at
    value_at-Inserted_ne r ne =
        ap (λ x. value_at x r) result
        ∙ value_of-replaced_ne m key.segment_index r.segment_index key.offset r.offset segment
            written m'.validated_addresses found untouched ne

    pub value_at-Inserted_old : (w : MaybeRelocatable) → value_at m key ≡ some w → w ≡ val
    unfolding value_at
    value_at-Inserted_old w h =
        value_in-write_cell_old key val roomy written w write
          (value_in-make_room segment roomy key.offset room key.offset ∙ sym (rw found) ∙ h)

    pub value_at-Inserted_keep :
        (w : MaybeRelocatable) → value_at m key ≡ some w → value_at m' key ≡ some w
    unfolding value_at
    value_at-Inserted_keep w h =
        ap (λ x. value_at x key) result
        ∙ value_of-replaced_self m key.segment_index key.offset written m'.validated_addresses found
        ∙ value_in-write_cell_keep key val roomy written w write
            (value_in-make_room segment roomy key.offset room key.offset ∙ sym (rw found) ∙ h)
