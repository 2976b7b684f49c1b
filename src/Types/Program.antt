-- ===== src/Types/Program.antt =====
-- vm/src/types/program.rs: the hints of a program, in one list with the range of each address.
pub mod Ranges
use cairo_vm.Base.{
  ℕ, zero, suc, ◌+◌, Option, none, some, List, [], ◌∷◌, ◌++◌, if◌then◌else◌, leb, max, length,
  get_elem?, set, grow,
}
use cairo_vm.Base.Result.{Result, ok, err, and_then}

pub data ProgramError : Type 0 where
  invalid_hint_pc : ℕ → ℕ → ProgramError

module _ {A : Type 0} where
  unfoldable pub drop : ℕ → List A → List A
  drop zero xs = xs
  drop (suc n) [] = []
  drop (suc n) (x ∷ xs) = drop n xs

  unfoldable pub take : ℕ → List A → List A
  take zero xs = []
  take (suc n) [] = []
  take (suc n) (x ∷ xs) = x ∷ take n xs

  -- `slice::get` of a range, or no elements.
  unfoldable pub slice_or_empty : List A → Option (ℕ × ℕ) → List A
  unfolding take drop
  slice_or_empty xs none = []
  slice_or_empty xs (some (start, len)) =
      if leb (start + len) (length xs) then take len (drop start xs) else []

-- A range of hints is the start and the length, which is not 0.
pub record HintsCollection (Hint : Type 0) : Type 0 where
  pub hints : List Hint
  pub hints_ranges : List (Option (ℕ × ℕ))

module _ {Hint : Type 0} where
  -- The last address that has hints.
  unfoldable pub max_hint_pc : List (ℕ × List Hint) → Option ℕ
  max_hint_pc [] = none
  max_hint_pc ((pc, hs) ∷ rest) =
      let later = max_hint_pc rest in elim later [ none ↦ some pc | some m ↦ some (max pc m) ]

  unfoldable pub fill_ranges :
      List (ℕ × List Hint) → List (Option (ℕ × ℕ)) → List Hint → HintsCollection Hint
  fill_ranges [] ranges values = record { hints = values; hints_ranges = ranges }
  fill_ranges ((pc, []) ∷ rest) ranges values = fill_ranges rest ranges values
  fill_ranges ((pc, h ∷ hs) ∷ rest) ranges values =
      fill_ranges rest (set ranges pc (some (length values, length (h ∷ hs)))) (values ++ h ∷ hs)

  -- `HintsCollection::new`. A `BTreeMap` is a list of its entries, by their keys.
  unfoldable pub new_hints : List (ℕ × List Hint) → ℕ → Result ProgramError (HintsCollection Hint)
  unfolding max_hint_pc fill_ranges
  new_hints hints program_length = elim (max_hint_pc hints) [
    | none ↦ ok (record { hints = []; hints_ranges = [] })
    | some m ↦
        if leb program_length m
        then err (ProgramError.invalid_hint_pc m program_length)
        else ok (fill_ranges hints (grow [] (m + 1) none) [])
  ]

  unfoldable pub get_hint_range_for_pc : HintsCollection Hint → ℕ → Option (Option (ℕ × ℕ))
  get_hint_range_for_pc c pc = get_elem? c.hints_ranges pc

  -- The hints of an address, as a run looks them up in what was made of the hints.
  unfoldable pub slice_for_pc : {Data : Type 0} → HintsCollection Hint → List Data → ℕ → List Data
  unfolding get_hint_range_for_pc slice_or_empty
  slice_for_pc c hint_data pc =
      slice_or_empty hint_data (and_then (get_hint_range_for_pc c pc) (λ range. range))
