-- ===== src/Math/Residues/Roots.antt =====
-- vm/src/math_utils/mod.rs: what `sqrt_prime_power` returns for a prime that is 3 modulo 4.
use native.Mathlib.Decide.{dec_lt}
use native.Mathlib.Nat.{
  div-add-mod', add-mul-mod_self_right, pow-zero, pow-suc, mod-lt, mod-eq_of_lt,
}
use cairo_vm.Base.{
  ℕ, zero, suc, ◌+◌, ◌-◌, ◌*◌, ◌/◌, ◌%◌, ◌^◌, ◌≤◌, ◌<◌, ◌≡◌, refl, sym, ap, ◌∙◌, Bool, true, false,
  ◌||◌, some, arith, ltb, ◌==◌, ◌⊎◌, inl, inr, min,
}
use cairo_vm.Math.Residues.{NumberOps, sqrt_prime_power, root_of, smaller_root}

mul-mod : (a b m : ℕ) → a % m * b % m ≡ a * b % m
mul-mod a b m = sym (ap (λ t. t % m) split ∙ add-mul-mod_self_right (a % m * b) (a / m * b) m)
  where
    split : a * b ≡ a % m * b + a / m * b * m
    split = let e : a / m * m + a % m ≡ a = div-add-mod' a m in grind arith

mul-mod_both : (a b m : ℕ) → (a % m) * (b % m) % m ≡ a * b % m
mul-mod_both a b m =
    mul-mod a (b % m) m
    ∙ (ap (λ t. t % m) (omega arith) ∙ (mul-mod b a m ∙ ap (λ t. t % m) (omega arith)))

pow_add : (a m n : ℕ) → a ^ (m + n) ≡ a ^ m * a ^ n
pow_add a m zero = let e : m + 0 ≡ m = omega arith in rw (e, pow-zero) (omega arith)
pow_add a m (suc n) =
    let e : m + suc n ≡ suc (m + n) = omega arith in
    rw (e, pow-suc a (m + n), pow-suc a n, pow_add a m n) (omega arith)

-- Both roots have the same square.
negated_square : (r p : ℕ) → r < p → (p - r) * (p - r) % p ≡ r * r % p
negated_square r p h =
    sym (add-mul-mod_self_right ((p - r) * (p - r)) r p)
    ∙ (ap (λ t. t % p) balanced ∙ add-mul-mod_self_right (r * r) (p - r) p)
  where
    parts : (k q : ℕ) → k * k + q * (k + q) ≡ q * q + k * (k + q)
    parts k q = omega arith

    balanced : (p - r) * (p - r) + r * p ≡ r * r + (p - r) * p
    balanced = let e : (p - r) + r ≡ p = omega arith in rw e at (parts (p - r) r)

smaller_root-square :
    (r p : ℕ)
    → r < p
    → (smaller_root r p * smaller_root r p % p ≡ r * r % p) × (2 * smaller_root r p ≤ p)
unfolding smaller_root
smaller_root-square r p h = elim (dec_lt r (p - r)) [
  | yes l ↦ let e : min r (p - r) ≡ r = omega arith in rw e (refl, omega arith)
  | no g ↦ let e : min r (p - r) ≡ p - r = omega arith in rw e (negated_square r p h, omega arith)
]

one_pow : (k : ℕ) → 1 ^ k ≡ 1
one_pow zero = pow-zero 1
one_pow (suc k) = pow-suc 1 k ∙ (ap (λ t. t * 1) (one_pow k) ∙ omega arith)

small_pow : (a k : ℕ) → a < 2 → a ^ (k + 1) ≡ a
small_pow zero k h = pow_add 0 k 1 ∙ omega arith
small_pow (suc zero) k h = one_pow (k + 1)
small_pow (suc (suc a)) k h = absurd (omega arith)

-- Euler's criterion makes the power (p + 1) / 4 a root.
euler_root :
    (a k p : ℕ)
    → (a < 2) ⊎ (a ^ (2 * k + 1) % p ≡ 1)
    → (a ^ (k + 1) % p) * (a ^ (k + 1) % p) % p ≡ a % p
euler_root a k p (inl small) =
    mul-mod_both _ _ p ∙ rw (small_pow a k small) (ap (λ t. t % p) (square a small))
  where
    square : (a : ℕ) → a < 2 → a * a ≡ a
    square zero h = refl
    square (suc zero) h = refl
    square (suc (suc a)) h = absurd (omega arith)
euler_root a k p (inr e) =
    mul-mod_both (a ^ (k + 1)) (a ^ (k + 1)) p
    ∙ (ap (λ t. t % p) halves ∙ (sym (mul-mod (a ^ (2 * k + 1)) a p) ∙ ap (λ t. t % p) one))
  where
    halves : a ^ (k + 1) * a ^ (k + 1) ≡ a ^ (2 * k + 1) * a
    halves =
        sym (pow_add a (k + 1) (k + 1)) ∙ (ap (λ t. a ^ t) (omega arith) ∙ pow-suc a (2 * k + 1))

    one : a ^ (2 * k + 1) % p * a ≡ a
    one = rw e (omega arith)

or_true : (b : Bool) → (b || true) ≡ true
or_true true = refl
or_true false = refl

module _ ⦃ops : NumberOps⦄ where
  open ops use {modpow, is_prime, modpow_lem}

  root_of-square :
      (draws a p : ℕ)
      → p % 4 ≡ 3
      → a < p
      → (a < 2) ⊎ (a ^ ((p - 1) / 2) % p ≡ 1)
      → (r : ℕ) × (root_of draws a p ≡ some r) × (r * r % p ≡ a) × (2 * r ≤ p)
  unfolding root_of
  root_of-square draws a p h small test =
      let k = p / 4 in
      let power = modpow a ((p + 1) / 4) p in
      let is_power : power ≡ a ^ (k + 1) % p =
        modpow_lem a ((p + 1) / 4) p (omega arith) ∙ ap (λ t. a ^ t % p) (omega arith) in
      let exponent : (p - 1) / 2 ≡ 2 * k + 1 = omega arith in
      let bound : power < p = rw is_power (mod-lt (a ^ (k + 1)) (omega arith)) in
      let root = smaller_root-square power p bound in
      let euler = euler_root a k p (rw exponent at test) in
      (
        smaller_root power p,
        rw h refl,
        root.0 ∙ (ap (λ t. t * t % p) is_power ∙ (euler ∙ mod-eq_of_lt small)),
        root.1,
      )

  -- For a prime that is 3 modulo 4, a number that passes Euler's test gets a square root modulo the
  -- prime, and the smaller one of the two.
  pub sqrt_prime_power-square :
      (draws n p : ℕ)
      → is_prime p ≡ true
      → p % 4 ≡ 3
      → (n % p) ^ ((p - 1) / 2) % p ≡ 1
      → (r : ℕ) × (sqrt_prime_power draws n p ≡ some r) × (r * r % p ≡ n % p) × (2 * r ≤ p)
  unfolding sqrt_prime_power
  sqrt_prime_power-square draws n p prime h test =
      let root = root_of-square draws (n % p) p h (mod-lt n (omega arith)) (inr test) in
      let power : modpow (n % p) ((p - 1) / 2) p ≡ 1 = modpow_lem _ _ p (omega arith) ∙ test in
      let nonzero : (p == 0) ≡ false = ground arith in
      let not_two : (p == 2) ≡ false = ground arith in
      (
        root.0,
        rw (nonzero, prime, not_two, power) (rw (or_true (ltb (n % p) 2)) root.1),
        root.2,
        root.3,
      )
