-- ===== src/Types/Program/Ranges.antt =====
-- vm/src/types/program.rs: the ranges give back the hints of each address.
use cairo_vm.Base.{
  ℕ, zero, suc, ◌+◌, ◌<◌, ◌≤◌, ◌≡◌, ◌≢◌, refl, sym, ap, ==_iff, ◌∙◌, subst, Option, none, some,
  List, [], ◌∷◌, ◌++◌, arith, inl, inr, Bool-cases, true, if◌then◌else◌, ◌==◌, leb, max, length,
  length-append, get_elem?, set, grow, length-set, length-grow_ge, get_elem?-set_self,
  get_elem?-set_ne, Option-cases, some-injective,
}
use cairo_vm.Base.Result.{ok, and_then, ok-injective}
use cairo_vm.Types.Program.{
  take, drop, slice_or_empty, HintsCollection, max_hint_pc, fill_ranges, new_hints,
  get_hint_range_for_pc, slice_for_pc,
}

module _ {A : Type 0} where
  drop-append : (xs ys : List A) (n : ℕ) → n ≤ length xs → drop n (xs ++ ys) ≡ drop n xs ++ ys
  unfolding drop
  drop-append xs ys zero h = refl
  drop-append [] ys (suc n) h = absurd (omega arith)
  drop-append (x ∷ xs) ys (suc n) h = drop-append xs ys n (omega arith)

  drop-length : (xs ys : List A) → drop (length xs) (xs ++ ys) ≡ ys
  unfolding drop
  drop-length [] ys = refl
  drop-length (x ∷ xs) ys = drop-length xs ys

  length-drop : (xs : List A) (n m : ℕ) → n + m ≤ length xs → m ≤ length (drop n xs)
  unfolding drop
  length-drop xs zero m h = omega arith
  length-drop [] (suc n) m h = absurd (omega arith)
  length-drop (x ∷ xs) (suc n) m h = length-drop xs n m (omega arith)

  take-append : (xs ys : List A) (n : ℕ) → n ≤ length xs → take n (xs ++ ys) ≡ take n xs
  unfolding take
  take-append xs ys zero h = refl
  take-append [] ys (suc n) h = absurd (omega arith)
  take-append (x ∷ xs) ys (suc n) h = ap (λ zs. x ∷ zs) (take-append xs ys n (omega arith))

  take-length : (xs : List A) → take (length xs) xs ≡ xs
  unfolding take
  take-length [] = refl
  take-length (x ∷ xs) = ap (λ zs. x ∷ zs) (take-length xs)

  -- More hints at the end leave a range that is inside as it is.
  slice-append :
      (xs ys : List A) (start len : ℕ)
      → start + len ≤ length xs
      → slice_or_empty (xs ++ ys) (some (start, len)) ≡ slice_or_empty xs (some (start, len))
  unfolding slice_or_empty
  slice-append xs ys start len h =
      let inside : leb (start + len) (length xs) ≡ true = ground arith in
      let long = length-append xs ys in
      let inside' : leb (start + len) (length (xs ++ ys)) ≡ true = ground (arith, long) in
      rw (slice_or_empty, inside, inside')
        (ap (take len) (drop-append xs ys start (omega arith))
          ∙ take-append (drop start xs) ys len (length-drop xs start len h))

  slice-last : (xs hs : List A) → slice_or_empty (xs ++ hs) (some (length xs, length hs)) ≡ hs
  unfolding slice_or_empty
  slice-last xs hs =
      let long = length-append xs hs in
      let inside : leb (length xs + length hs) (length (xs ++ hs)) ≡ true = ground (arith, long) in
      rw (slice_or_empty, inside) (ap (take (length hs)) (drop-length xs hs) ∙ take-length hs)

all_none :
    (n pc : ℕ) → and_then (get_elem? (grow [] n none) pc) (λ (range : Option (ℕ × ℕ)). range) ≡ none
all_none zero pc = refl
all_none (suc n) zero = refl
all_none (suc n) (suc pc) = all_none n pc

module _ {A : Type 0} where
  -- The entries of a map: no key twice, and no key from `n` on.
  abbrev Absent : ℕ → List (ℕ × List A) → Type 0
  Absent k [] = Unit
  Absent k ((j, _) ∷ rest) = (j ≢ k) × Absent k rest

  abbrev pub Distinct : List (ℕ × List A) → Type 0
  Distinct [] = Unit
  Distinct ((k, _) ∷ rest) = Absent k rest × Distinct rest

  abbrev Below : ℕ → List (ℕ × List A) → Type 0
  Below n [] = Unit
  Below n ((k, _) ∷ rest) = (k < n) × Below n rest

  -- The hints of an address in the map, or none.
  unfoldable pub hints_for : List (ℕ × List A) → ℕ → List A
  hints_for [] pc = []
  hints_for ((k, hs) ∷ rest) pc = if k == pc then hs else hints_for rest pc

  abbrev Within : List A → Option (Option (ℕ × ℕ)) → Type 0
  Within xs none = Unit
  Within xs (some none) = Unit
  Within xs (some (some (start, len))) = start + len ≤ length xs

  abbrev slice_of : List A → Option (Option (ℕ × ℕ)) → List A
  slice_of xs o = slice_or_empty xs (and_then o (λ range. range))

  Within-append : (xs ys : List A) (o : Option (Option (ℕ × ℕ))) → Within xs o → Within (xs ++ ys) o
  Within-append xs ys none h = tt
  Within-append xs ys (some none) h = tt
  Within-append xs ys (some (some (start, len))) h = omega (arith, length-append xs ys)

  slice_of-append :
      (xs ys : List A) (o : Option (Option (ℕ × ℕ)))
      → Within xs o
      → slice_of (xs ++ ys) o ≡ slice_of xs o
  unfolding slice_or_empty
  slice_of-append xs ys none h = refl
  slice_of-append xs ys (some none) h = refl
  slice_of-append xs ys (some (some (start, len))) h = slice-append xs ys start len h

  fill-keeps :
      (entries : List (ℕ × List A)) (ranges : List (Option (ℕ × ℕ))) (values : List A) (pc : ℕ)
      → Absent pc entries
      → Within values (get_elem? ranges pc)
      → slice_for_pc
          (fill_ranges entries ranges values)
          (fill_ranges entries ranges values).hints
          pc
        ≡ slice_of values (get_elem? ranges pc)
  unfolding slice_for_pc get_hint_range_for_pc fill_ranges
  fill-keeps [] ranges values pc absent within = refl
  fill-keeps ((k, []) ∷ rest) ranges values pc absent within =
      fill-keeps rest ranges values pc absent.1 within
  fill-keeps ((k, h ∷ hs) ∷ rest) ranges values pc absent within =
      let range = some (length values, length (h ∷ hs)) in
      let same = get_elem?-set_ne ranges k pc range absent.0 in
      fill-keeps rest (set ranges k range) (values ++ h ∷ hs) pc absent.1
        (subst (Within (values ++ h ∷ hs)) (sym same) (Within-append values (h ∷ hs) _ within))
      ∙ ap (slice_of (values ++ h ∷ hs)) same
      ∙ slice_of-append values (h ∷ hs) _ within

  Absent-eq :
      (k pc : ℕ) (rest : List (ℕ × List A)) → (k == pc) ≡ true → Absent k rest → Absent pc rest
  Absent-eq k pc rest here = subst (λ x. Absent x rest) ((==_iff k pc).0 here)

  fill-finds :
      (entries : List (ℕ × List A)) (ranges : List (Option (ℕ × ℕ))) (values : List A) (pc : ℕ)
      → Distinct entries
      → Below (length ranges) entries
      → Within values (get_elem? ranges pc)
      → slice_of values (get_elem? ranges pc) ≡ []
      → slice_for_pc
          (fill_ranges entries ranges values)
          (fill_ranges entries ranges values).hints
          pc
        ≡ hints_for entries pc
  unfolding slice_for_pc get_hint_range_for_pc fill_ranges hints_for
  fill-finds [] ranges values pc distinct below within free = free
  fill-finds ((k, []) ∷ rest) ranges values pc distinct below within free =
      elim (Bool-cases (k == pc)) [
        | inl here ↦
            rw (hints_for, here)
              (fill-keeps rest ranges values pc (Absent-eq k pc rest here distinct.0) within ∙ free)
        | inr elsewhere ↦
            rw (hints_for, elsewhere)
              (fill-finds rest ranges values pc distinct.1 below.1 within free)
      ]
  fill-finds ((k, h ∷ hs) ∷ rest) ranges values pc distinct below within free =
      elim (Bool-cases (k == pc)) [
        | inl here ↦
            let range = some (length values, length (h ∷ hs)) in
            let vs = values ++ h ∷ hs in
            let found : get_elem? (set ranges k range) pc ≡ some range =
              subst (λ x. get_elem? (set ranges k range) x ≡ some range) ((==_iff k pc).0 here)
                (get_elem?-set_self ranges k range below.0) in
            let inside : Within vs (some range) = omega (arith, length-append values (h ∷ hs)) in
            rw (hints_for, here)
              (fill-keeps rest (set ranges k range) vs pc (Absent-eq k pc rest here distinct.0)
                  (subst (Within vs) (sym found) inside)
                ∙ ap (slice_of vs) found
                ∙ slice-last values (h ∷ hs))
        | inr elsewhere ↦
            let apart : k ≢ pc = λ e. cc ((==_iff k pc).1 e, elsewhere) in
            let range = some (length values, length (h ∷ hs)) in
            let same = get_elem?-set_ne ranges k pc range apart in
            rw (hints_for, elsewhere)
              (fill-finds rest (set ranges k range) (values ++ h ∷ hs) pc distinct.1
                (subst (λ n. Below n rest) (sym (length-set ranges k range)) below.1)
                (subst (Within (values ++ h ∷ hs)) (sym same)
                  (Within-append values (h ∷ hs) _ within))
                (ap (slice_of (values ++ h ∷ hs)) same
                  ∙ slice_of-append values (h ∷ hs) _ within
                  ∙ free))
      ]

  Below-le : (n m : ℕ) (entries : List (ℕ × List A)) → n ≤ m → Below n entries → Below m entries
  Below-le n m [] h below = tt
  Below-le n m ((k, _) ∷ rest) h below = (omega (arith, below.0), Below-le n m rest h below.1)

  max_hint_pc-none : (entries : List (ℕ × List A)) → max_hint_pc entries ≡ none → entries ≡ []
  unfolding max_hint_pc
  max_hint_pc-none [] h = refl
  max_hint_pc-none ((k, _) ∷ rest) h = elim (Option-cases (max_hint_pc rest)) [
    | inl e ↦ cc (rw (max_hint_pc, e) at h)
    | inr e ↦ cc (rw (max_hint_pc, e.1) at h)
  ]

  max_hint_pc-Below :
      (m : ℕ) (entries : List (ℕ × List A)) → max_hint_pc entries ≡ some m → Below (m + 1) entries
  unfolding max_hint_pc
  max_hint_pc-Below m [] h = tt
  max_hint_pc-Below m ((k, _) ∷ rest) h = elim (Option-cases (max_hint_pc rest)) [
    | inl e ↦
        let only : k ≡ m = some-injective (rw (max_hint_pc, e) at h) in
        (omega arith, subst (Below (m + 1)) (sym (max_hint_pc-none rest e)) tt)
    | inr e ↦
        let larger : max k e.0 ≡ m = some-injective (rw (max_hint_pc, e.1) at h) in
        (
          omega arith,
          Below-le (e.0 + 1) (m + 1) rest (omega arith) (max_hint_pc-Below e.0 rest e.1),
        )
  ]

  slice_of-none :
      (xs : List A) (o : Option (Option (ℕ × ℕ)))
      → and_then o (λ range. range) ≡ none
      → Within xs o × (slice_of xs o ≡ [])
  unfolding slice_or_empty
  slice_of-none xs none h = (tt, refl)
  slice_of-none xs (some none) h = (tt, refl)
  slice_of-none xs (some (some range)) h = cc h

  no_hints :
      (pc : ℕ)
      → slice_for_pc {Hint = A} (record { hints = []; hints_ranges = [] }) [] pc ≡ hints_for [] pc
  unfolding slice_for_pc get_hint_range_for_pc slice_or_empty hints_for
  no_hints pc = refl

  -- In a collection that is made of a map from addresses to hints, the range of an address gives
  -- back the hints that the map has for it, and no hints where the map has none. The entries of the
  -- map have different addresses.
  pub new_hints-slice_for_pc :
      (entries : List (ℕ × List A)) (n : ℕ) (c : HintsCollection A) (pc : ℕ)
      → Distinct entries
      → new_hints entries n ≡ ok c
      → slice_for_pc c c.hints pc ≡ hints_for entries pc
  unfolding new_hints
  new_hints-slice_for_pc entries n c pc distinct h = elim (Option-cases (max_hint_pc entries)) [
    | inl e ↦
        subst (λ (x : HintsCollection A). slice_for_pc x x.hints pc ≡ hints_for entries pc)
          (ok-injective (rw (new_hints, e) at h))
          (subst
            (λ es.
              slice_for_pc {Hint = A} (record { hints = []; hints_ranges = [] }) [] pc
              ≡ hints_for es pc)
            (sym (max_hint_pc-none entries e)) (no_hints pc))
    | inr e ↦ elim (Bool-cases (leb n e.0)) [
      | inl beyond ↦ cc (rw (new_hints, e.1, beyond) at h)
      | inr inside ↦
          let ranges = grow [] (e.0 + 1) none in
          let (within, free) = slice_of-none [] (get_elem? ranges pc) (all_none (e.0 + 1) pc) in
          subst (λ (x : HintsCollection A). slice_for_pc x x.hints pc ≡ hints_for entries pc)
            (ok-injective (rw (new_hints, e.1, inside) at h))
            (fill-finds entries ranges [] pc distinct
              (Below-le (e.0 + 1) (length ranges) entries (length-grow_ge [] (e.0 + 1) none)
                (max_hint_pc-Below e.0 entries e.1))
              within free)
    ]
  ]
