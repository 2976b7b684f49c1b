-- ===== src/Base/Result.antt =====
-- Rust's `Result` with its `?` chains, and `Option` read as one.
use cairo_vm.Base.{◌≡◌, refl, ◌⊎◌, inl, inr, Bool, true, false, Option, none, some}

pub data Result {ℓ} (E : Type 0) (A : Type ℓ) : Type ℓ where
  ok : A → Result E A
  err : E → Result E A

module _ {ℓ κ} {E : Type 0} {A : Type ℓ} {B : Type κ} where
  infixl 5 ◌>>=◌
  abbrev pub ◌>>=◌ : Result E A → (A → Result E B) → Result E B
  ok a >>= f = f a
  err e >>= f = err e

  -- Inversion of a successful bind, for proofs where the parts stay shut.
  pub >>=-eq-ok :
      (step : Result E A) (next : A → Result E B) {out : B}
      → (step >>= next) ≡ ok out
      → (mid : A) × (step ≡ ok mid) × (next mid ≡ ok out)
  >>=-eq-ok (err e) next h = cc
  >>=-eq-ok (ok mid) next h = (mid, refl, h)

-- The same with the value bound by a λ, for chains of several steps.
pub bind-ok-elim {ℓ κ μ} :
    {E : Type 0} {A : Type ℓ} {B : Type κ} {P : Type μ} {b : B} (m : Result E A)
    (f : A → Result E B)
    → (m >>= f) ≡ ok b
    → ((a : A) → m ≡ ok a → f a ≡ ok b → P)
    → P
bind-ok-elim (ok a) f h k = k a refl h
bind-ok-elim (err e) f h k = cc

-- `map_err`, which is also the conversion that `?` makes by `From`.
abbrev pub map_err {ℓ} : {E E' : Type 0} {A : Type ℓ} → (E → E') → Result E A → Result E' A
map_err f (ok a) = ok a
map_err f (err e) = err (f e)

abbrev pub ok_or {ℓ} : {E : Type 0} {A : Type ℓ} → Option A → E → Result E A
ok_or none e = err e
ok_or (some a) e = ok a

-- `if !holds { return Err(error) }`
abbrev pub guard : {E : Type 0} → (holds : Bool) → (error : E) → Result E (Unit {0})
guard false error = err error
guard true error = ok tt

-- One action after another.
infixl 5 ◌>>◌
abbrev pub ◌>>◌ {ℓ} : {E : Type 0} {B : Type ℓ} → Result E (Unit {0}) → Result E B → Result E B
first >> second = first >>= λ done. second

-- `Result::ok`
abbrev pub to_option {ℓ} : {E : Type 0} {A : Type ℓ} → Result E A → Option A
to_option (ok a) = some a
to_option (err e) = none

-- `Option::and_then`
abbrev pub and_then {ℓ κ} : {A : Type ℓ} {B : Type κ} → Option A → (A → Option B) → Option B
and_then none f = none
and_then (some a) f = f a

pub and_then-eq-some {ℓ κ} :
    {A : Type ℓ} {B : Type κ} (m : Option A) (f : A → Option B) {b : B}
    → and_then m f ≡ some b
    → (a : A) × (m ≡ some a) × (f a ≡ some b)
and_then-eq-some none f h = cc
and_then-eq-some (some a) f h = (a, refl, h)

pub map_err-eq-ok {ℓ} :
    {E E' : Type 0} {A : Type ℓ} (g : E → E') (m : Result E A) {a : A}
    → map_err g m ≡ ok a
    → m ≡ ok a
map_err-eq-ok g (ok a) h = cc
map_err-eq-ok g (err e) h = cc

pub Result-cases {ℓ} :
    {E : Type 0} {A : Type ℓ} (r : Result E A) → ((a : A) × (r ≡ ok a)) ⊎ ((e : E) × (r ≡ err e))
Result-cases (ok a) = inl (a, refl)
Result-cases (err e) = inr (e, refl)

pub ok_or-eq-ok {ℓ} :
    {E : Type 0} {A : Type ℓ} (m : Option A) (e : E) {a : A} → ok_or m e ≡ ok a → m ≡ some a
ok_or-eq-ok none e h = cc
ok_or-eq-ok (some a) e h = cc

pub ok-injective {ℓ} : {E : Type 0} {A : Type ℓ} {a b : A} → Path (Result E A) (ok a) (ok b) → a ≡ b
ok-injective h = cc h
