-- ===== src/Memory/Cell.antt =====
-- vm/src/vm/vm_memory/memory.rs, `MemoryCell`: a value packed into four 64-bit words, with three
-- flags in the top bits of the first word. A mask of one bit is read by division.
use cairo_vm.Base.{
  ℕ, ◌+◌, ◌-◌, ◌/◌, ◌%◌, ◌^◌, ◌<◌, ◌≡◌, refl, ap, inl, inr, Bool-cases, Bool, true, false, not,
  Option, none, some, arith, ltb, ◌==◌, if◌then◌else◌, word,
}
use cairo_vm.Base.Int.{ℤ, pos, negsuc}
use cairo_vm.Types.Felt.{FeltOps, Words, words}
use cairo_vm.Types.Value.{rel, MaybeRelocatable, relocatable_value, int, IsIsize, IsValue}

pub record MemoryCell : Type 0 where
  pub raw : Words

abbrev pub cell : Words → MemoryCell
cell w = record { raw = w }

-- `w & (1 << k) == 1 << k`
abbrev has_bit : ℕ → ℕ → Bool
has_bit w k = w / 2 ^ k % 2 == 1

abbrev none_bit : ℕ
none_bit = 63

abbrev access_bit : ℕ
access_bit = 62

abbrev relocatable_bit : ℕ
relocatable_bit = 61

-- `MemoryCell::NONE`
unfoldable pub empty : MemoryCell
empty = cell (words (2 ^ none_bit) 0 0 0)

unfoldable pub is_none : MemoryCell → Bool
is_none c = has_bit c.raw.w0 none_bit

-- `self.0[0] |= Self::ACCESS_MASK`
unfoldable pub mark_accessed : MemoryCell → MemoryCell
mark_accessed c =
    let r = c.raw in
    cell (record r { w0 = if has_bit r.w0 access_bit then r.w0 else r.w0 + 2 ^ access_bit })

unfoldable pub is_accessed : MemoryCell → Bool
is_accessed c = has_bit c.raw.w0 access_bit

-- The bits of an `isize` read as a `usize`, and back.
unfoldable pub isize_bits : ℤ → ℕ
isize_bits (pos n) = n
isize_bits (negsuc n) = word - (n + 1)

unfoldable pub bits_isize : ℕ → ℤ
bits_isize w = if ltb w (2 ^ 63) then pos w else negsuc (word - w - 1)

module _ ⦃F : FeltOps⦄ where
  -- `From<MaybeRelocatable> for MemoryCell`, which is `MemoryCell::new`.
  unfoldable pub new : MaybeRelocatable → MemoryCell
  unfolding isize_bits
  new (int x) = cell (F.to_raw x)
  new (relocatable_value r) =
      cell (words (2 ^ relocatable_bit) 0 (isize_bits r.segment_index) r.offset)

  -- `From<MemoryCell> for MaybeRelocatable`; the flag bits of a felt are removed.
  unfoldable pub to_value : MemoryCell → MaybeRelocatable
  unfolding bits_isize
  to_value c =
      let r = c.raw in
      if has_bit r.w0 relocatable_bit
      then relocatable_value (rel (bits_isize r.w2) r.w3)
      else int (F.from_raw (record r { w0 = r.w0 % 2 ^ 60 }))

  unfoldable pub get_value : MemoryCell → Option MaybeRelocatable
  unfolding is_none to_value
  get_value c = if not (is_none c) then some (to_value c) else none

bits_isize-isize_bits : (s : ℤ) → IsIsize s → bits_isize (isize_bits s) ≡ s
unfolding bits_isize isize_bits
bits_isize-isize_bits (pos n) h = ground arith
bits_isize-isize_bits (negsuc n) h = ground arith

clear_flags : (r : Words) → r.w0 < 2 ^ 60 → record r { w0 = r.w0 % 2 ^ 60 } ≡ r
clear_flags r h = let e : r.w0 % 2 ^ 60 ≡ r.w0 = omega arith in ap (λ w. words w r.w1 r.w2 r.w3) e

-- The access bit is apart from the other two flags and from the bits of a felt.
access_apart :
    (w : ℕ)
    → has_bit w access_bit ≡ false
    → (has_bit (w + 2 ^ access_bit) none_bit ≡ has_bit w none_bit)
      × (has_bit (w + 2 ^ access_bit) relocatable_bit ≡ has_bit w relocatable_bit)
      × ((w + 2 ^ access_bit) % 2 ^ 60 ≡ w % 2 ^ 60)
access_apart w h = (ground arith, ground arith, ground arith)

module _ ⦃F : FeltOps⦄ where
  pub get_value-empty : get_value empty ≡ none
  unfolding get_value empty
  get_value-empty = refl

  -- A cell gives back the value that it was made from.
  pub get_value-new : (v : MaybeRelocatable) → IsValue v → get_value (new v) ≡ some v
  unfolding get_value new
  get_value-new (int x) h =
      (ground
        (arith, F.to_raw-lt x h, F.from_raw-to_raw x h, clear_flags (F.to_raw x) (F.to_raw-lt x h)))
  get_value-new (relocatable_value r) h =
      ground (arith, bits_isize-isize_bits r.segment_index h.segment)

  -- A new cell does not count as accessed.
  pub is_accessed-new : (v : MaybeRelocatable) → IsValue v → is_accessed (new v) ≡ false
  unfolding is_accessed new
  is_accessed-new (int x) h = ground (arith, F.to_raw-lt x h)
  is_accessed-new (relocatable_value r) h = refl

  -- The access flag does not disturb the value.
  pub get_value-mark_accessed : (c : MemoryCell) → get_value (mark_accessed c) ≡ get_value c
  unfolding get_value mark_accessed
  get_value-mark_accessed c = elim (Bool-cases (has_bit c.raw.w0 access_bit)) [
    | inl set ↦ rw set
    | inr clear ↦ let (n, r, b) = access_apart c.raw.w0 clear in rw (clear, n, r, b)
  ]

pub is_accessed-mark_accessed : (c : MemoryCell) → is_accessed (mark_accessed c) ≡ true
unfolding is_accessed mark_accessed
is_accessed-mark_accessed c = ground arith
