-- ===== src/Memory/WriteOnce.antt =====
-- The contract of `Memory::insert` and `Memory::get` of vm/src/vm/vm_memory/memory.rs.
use cairo_vm.Base.{
  ℕ, ◌<◌, ◌≡◌, ◌≢◌, refl, sym, ap, ◌∙◌, some, List, arith, Bool-cases, inl, inr, length, get_elem?,
  get_elem?-lt,
}
use cairo_vm.Base.Int.{ℤ, pos, negsuc}
use cairo_vm.Base.Result.{ok, err, and_then-eq-some}
use cairo_vm.Types.Felt.{FeltOps}
use cairo_vm.Types.Value.{Relocatable, MaybeRelocatable, eqb_rel, eqb_rel_iff, eqb_iff, IsValue}
use cairo_vm.Types.Errors.{MemoryError}
use cairo_vm.Memory.Cell.{MemoryCell, get_value}
use cairo_vm.Memory.Store.{
  Memory, value_at, get, insert, make_room, write_cell, cell_at, segments_of, segment_key,
  with_segments,
}
use cairo_vm.Memory.Insert.{
  Inserted, insert-Inserted, value_at-Inserted_self, value_at-Inserted_ne, value_at-Inserted_keep,
}

with_segments-rules :
    (m : Memory) (ss : List (List MemoryCell)) (s : ℤ)
    → (with_segments m s ss).relocation_rules ≡ m.relocation_rules
with_segments-rules m ss (pos n) = refl
with_segments-rules m ss (negsuc n) = refl

module _ ⦃F : FeltOps⦄ where
  -- Everything that `m` holds, `m'` holds with the same value.
  abbrev pub Extends : Memory → Memory → Type 0
  Extends m m' =
      (r : Relocatable) (w : MaybeRelocatable) → value_at m r ≡ some w → value_at m' r ≡ some w

  -- `m'` is `m` with the value `v` at the address `k`, as a map from addresses to values.
  pub record Updated (m : Memory) (k : Relocatable) (v : MaybeRelocatable) (m' : Memory)
      : Type 0 where
    pub here : value_at m' k ≡ some v
    pub elsewhere : (r : Relocatable) → r ≢ k → value_at m' r ≡ value_at m r
    pub extends : Extends m m'

  -- A successful `insert` changes no value that is there.
  pub insert-Extends :
      (m m' : Memory) (k : Relocatable) (v : MaybeRelocatable) → insert m k v ≡ ok m' → Extends m m'
  insert-Extends m m' k v h r w old =
      let s = insert-Inserted m m' k v h in
      elim (Bool-cases (eqb_rel r k)) [
        | inl same ↦
            let e : r ≡ k = (eqb_rel_iff r k).0 same in
            rw e (value_at-Inserted_keep s w (rw (← e) old))
        | inr other ↦ value_at-Inserted_ne s r (λ e. cc (sym other ∙ (eqb_rel_iff r k).1 e)) ∙ old
      ]

  -- A successful `insert` of a value that fits its cell adds that value to the memory, seen as a
  -- map: the address reads back the value, every other address is as before, and no value that
  -- was there has changed.
  pub insert-Updated :
      (m m' : Memory) (k : Relocatable) (v : MaybeRelocatable)
      → IsValue v
      → insert m k v ≡ ok m'
      → Updated m k v m'
  insert-Updated m m' k v hv h =
      let s = insert-Inserted m m' k v h in
      record {
        here = value_at-Inserted_self s hv;
        elsewhere = value_at-Inserted_ne s;
        extends = insert-Extends m m' k v h;
      }

  make_room-within :
      (segment : List MemoryCell) (o : ℕ) → o < length segment → make_room segment o ≡ ok segment
  unfolding make_room
  make_room-within segment o h = ground arith

  write_cell-inconsistent :
      (k : Relocatable) (w v : MaybeRelocatable) (segment : List MemoryCell) (c : MemoryCell)
      → get_elem? segment k.offset ≡ some c
      → get_value c ≡ some w
      → w ≢ v
      → write_cell k v segment ≡ err (MemoryError.inconsistent_memory k w v)
  unfolding write_cell
  write_cell-inconsistent k w v segment c h e ne = ground (arith, eqb_iff w v)

  -- A write of another value to an address that has one is refused, with the address, the value
  -- that is there and the one that was offered; so a memory cell is never overwritten.
  pub insert-inconsistent :
      (m : Memory) (k : Relocatable) (w v : MaybeRelocatable)
      → value_at m k ≡ some w
      → w ≢ v
      → insert m k v ≡ err (MemoryError.inconsistent_memory k w v)
  unfolding insert value_at
  insert-inconsistent m k w v h ne =
      let (c, e, value) = and_then-eq-some (cell_at m k) get_value h in
      let (segment, found, there) =
        and_then-eq-some (get_elem? (segments_of m k.segment_index) (segment_key k.segment_index))
          (λ row. get_elem? row k.offset) e in
      rw (
        found,
        make_room-within segment k.offset (get_elem?-lt segment k.offset there),
        write_cell-inconsistent k w v segment c there value ne,
      )

  pub rules-Inserted :
      {m m' : Memory} {k : Relocatable} {v : MaybeRelocatable}
      → Inserted m k v m'
      → m'.relocation_rules ≡ m.relocation_rules
  rules-Inserted {m} {k} s =
      ap (λ x. x.relocation_rules) s.result ∙ with_segments-rules m _ k.segment_index

  -- Once an address reads as a value it goes on to read as that value, whatever is inserted later.
  pub get-insert_mono :
      (m m' : Memory) (k r : Relocatable) (v w : MaybeRelocatable)
      → insert m k v ≡ ok m'
      → get m r ≡ some w
      → get m' r ≡ some w
  unfolding get
  get-insert_mono m m' k r v w h g =
      let (raw, e, moved) = and_then-eq-some _ _ g in
      rw (insert-Extends m m' k v h r raw e, rules-Inserted (insert-Inserted m m' k v h)) moved
