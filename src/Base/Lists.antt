-- ===== src/Base/Lists.antt =====
-- Lists measured and indexed by native numbers, under the library's names.
use Prim.Native.Nat.{ℕ, zero, suc, ◌+◌, ◌<◌, ◌≤◌}
use mathlib.Core.Path.{◌≡◌, refl, ap}
use mathlib.Core.Logic.{◌≢◌, ◌⊎◌, inl, inr}
use mathlib.Core.List.{List, [], ◌∷◌, ◌++◌}
use mathlib.Core.Option.{Option, none, some}
use native.Mathlib.Omega.{arith}

module _ {ℓ} {A : Type ℓ} where
  abbrev pub length : List A → ℕ
  length [] = 0
  length (x ∷ xs) = suc (length xs)

  abbrev pub get_elem? : List A → ℕ → Option A
  get_elem? [] i = none
  get_elem? (x ∷ xs) zero = some x
  get_elem? (x ∷ xs) (suc i) = get_elem? xs i

  -- A write out of bounds changes nothing.
  abbrev pub set : List A → ℕ → A → List A
  set [] i v = []
  set (x ∷ xs) zero v = v ∷ xs
  set (x ∷ xs) (suc i) v = x ∷ set xs i v

  -- `Vec::resize` to a length that is not smaller: pads with `v`, and leaves a longer list alone.
  abbrev pub grow : List A → ℕ → A → List A
  grow xs zero v = xs
  grow [] (suc n) v = v ∷ grow [] n v
  grow (x ∷ xs) (suc n) v = x ∷ grow xs n v

module _ {ℓ} {A : Type ℓ} where
  pub length-set : (xs : List A) (i : ℕ) (v : A) → length (set xs i v) ≡ length xs
  length-set [] i v = refl
  length-set (x ∷ xs) zero v = refl
  length-set (x ∷ xs) (suc i) v = ap suc (length-set xs i v)

  pub length-append : (xs ys : List A) → length (xs ++ ys) ≡ length xs + length ys
  length-append [] ys = omega arith
  length-append (x ∷ xs) ys = omega (arith, length-append xs ys)

  pub get_elem?-set_self :
      (xs : List A) (i : ℕ) (v : A) → i < length xs → get_elem? (set xs i v) i ≡ some v
  get_elem?-set_self [] i v h = elim h [ ]
  get_elem?-set_self (x ∷ xs) zero v h = refl
  get_elem?-set_self (x ∷ xs) (suc i) v h = get_elem?-set_self xs i v (omega arith)

  pub get_elem?-set_ne :
      (xs : List A) (i j : ℕ) (v : A) → i ≢ j → get_elem? (set xs i v) j ≡ get_elem? xs j
  get_elem?-set_ne [] i j v h = refl
  get_elem?-set_ne (x ∷ xs) zero zero v h = absurd (h refl)
  get_elem?-set_ne (x ∷ xs) zero (suc j) v h = refl
  get_elem?-set_ne (x ∷ xs) (suc i) zero v h = refl
  get_elem?-set_ne (x ∷ xs) (suc i) (suc j) v h = get_elem?-set_ne xs i j v (λ e. h (ap suc e))

  pub get_elem?-lt : (xs : List A) (i : ℕ) {x : A} → get_elem? xs i ≡ some x → i < length xs
  get_elem?-lt [] i h = cc
  get_elem?-lt (x ∷ xs) zero h = omega arith
  get_elem?-lt (x ∷ xs) (suc i) h = omega (arith, get_elem?-lt xs i h)

  pub get_elem?-ge : (xs : List A) (i : ℕ) → length xs ≤ i → get_elem? xs i ≡ none
  get_elem?-ge [] i h = refl
  get_elem?-ge (x ∷ xs) zero h = absurd (omega arith)
  get_elem?-ge (x ∷ xs) (suc i) h = get_elem?-ge xs i (omega arith)

  pub get_elem?-total : (xs : List A) (i : ℕ) → i < length xs → (x : A) × (get_elem? xs i ≡ some x)
  get_elem?-total [] i h = absurd (omega arith)
  get_elem?-total (x ∷ xs) zero h = (x, refl)
  get_elem?-total (x ∷ xs) (suc i) h = get_elem?-total xs i (omega arith)

  pub length-grow_ge : (xs : List A) (n : ℕ) (v : A) → n ≤ length (grow xs n v)
  length-grow_ge xs zero v = omega arith
  length-grow_ge [] (suc n) v = omega (arith, length-grow_ge [] n v)
  length-grow_ge (x ∷ xs) (suc n) v = omega (arith, length-grow_ge xs n v)

  -- Growing keeps what is there; what it adds is the padding.
  pub get_elem?-grow_lt :
      (xs : List A) (n i : ℕ) (v : A) → i < length xs → get_elem? (grow xs n v) i ≡ get_elem? xs i
  get_elem?-grow_lt xs zero i v h = refl
  get_elem?-grow_lt [] (suc n) i v h = absurd (omega arith)
  get_elem?-grow_lt (x ∷ xs) (suc n) zero v h = refl
  get_elem?-grow_lt (x ∷ xs) (suc n) (suc i) v h = get_elem?-grow_lt xs n i v (omega arith)

  pub get_elem?-grow_pad :
      (xs : List A) (n i : ℕ) (v : A) {x : A}
      → length xs ≤ i
      → get_elem? (grow xs n v) i ≡ some x
      → x ≡ v
  get_elem?-grow_pad xs zero i v le h = ground (arith, get_elem?-ge xs i)
  get_elem?-grow_pad [] (suc n) zero v le h = cc
  get_elem?-grow_pad [] (suc n) (suc i) v le h = get_elem?-grow_pad [] n i v (omega arith) h
  get_elem?-grow_pad (x ∷ xs) (suc n) zero v le h = absurd (omega arith)
  get_elem?-grow_pad (x ∷ xs) (suc n) (suc i) v le h = get_elem?-grow_pad xs n i v (omega arith) h

  pub List-cases : (xs : List A) → (xs ≡ []) ⊎ ((x : A) × (rest : List A) × (xs ≡ x ∷ rest))
  List-cases [] = inl refl
  List-cases (x ∷ xs) = inr (x, xs, refl)

  pub some-injective : {x y : A} → Path (Option A) (some x) (some y) → x ≡ y
  some-injective h = cc h

  pub get_elem?-append_lt :
      (xs ys : List A) (i : ℕ) {x : A} → get_elem? xs i ≡ some x → get_elem? (xs ++ ys) i ≡ some x
  get_elem?-append_lt [] ys i h = cc h
  get_elem?-append_lt (x ∷ xs) ys zero h = h
  get_elem?-append_lt (x ∷ xs) ys (suc i) h = get_elem?-append_lt xs ys i h
