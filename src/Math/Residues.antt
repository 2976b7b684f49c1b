-- ===== src/Math/Residues.antt =====
-- vm/src/math_utils/mod.rs: quadratic residues and square roots modulo a prime. Modular powers, the
-- test for primes and the seeded random numbers are of the crates num-bigint, num-prime and rand.
use cairo_vm.Base.{
  ℕ, zero, suc, ◌+◌, ◌-◌, ◌*◌, ◌/◌, ◌%◌, ◌^◌, ◌<◌, ◌≡◌, Bool, true, false, ◌&&◌, ◌||◌, not, Option,
  none, some, ltb, leb, ◌==◌, if◌then◌else◌, min,
}
use cairo_vm.Base.Int.{ℤ, pos, negsuc, eqb_ℤ}
use cairo_vm.Base.Result.{Result, ok, err}
use cairo_vm.Types.Errors.{MathError}
pub mod Roots

pub record NumberOps : Type 0 where
  pub modpow : ℕ → ℕ → ℕ → ℕ
  pub is_prime : ℕ → Bool
  -- `trailing_zeros`, which is 0 here for the number 0.
  pub trailing_zeros : ℕ → ℕ
  -- The numbers that the seeded generator draws, one after another, from a range.
  pub drawn : (low high : ℕ) → (draw : ℕ) → ℕ
  pub modpow_lem : (b e m : ℕ) → 0 < m → modpow b e m ≡ b ^ e % m

smaller_root : ℕ → ℕ → ℕ
smaller_root res p = min res (p - res)

module _ ⦃ops : NumberOps⦄ where
  open ops use {modpow, is_prime, trailing_zeros, drawn}

  unfoldable pub is_quad_residue : ℕ → ℕ → Result MathError Bool
  is_quad_residue n p =
      if p == 0
      then err MathError.is_quad_residue_zero_prime
      else let a = if leb p n then n % p else n in
        if ltb a 2 || ltb p 3 then ok true else ok (modpow a ((p - 1) / 2) p == 1)

  unwrap_or_default : Result MathError Bool → Bool
  unwrap_or_default (ok b) = b
  unwrap_or_default (err e) = false

  pub legendre_symbol : ℕ → ℕ → ℤ
  unfolding is_quad_residue unwrap_or_default
  legendre_symbol a p =
      if a == 0 then pos 0 else if unwrap_or_default (is_quad_residue a p) then pos 1 else negsuc 0

  -- The loop that draws until a number has no root. The source's loop has no bound: `draws` is one.
  pub non_residue : (draws drawn_before : ℕ) → ℕ → Option ℕ
  unfolding legendre_symbol
  non_residue zero k prime = none
  non_residue (suc draws) k prime =
      let d = drawn 2 (prime - 1) k in
      let rest = non_residue draws (suc k) prime in
      if eqb_ℤ (legendre_symbol d prime) (negsuc 0) then some d else rest

  -- The rounds i, i + 1, … of the loop over the exponent m.
  pub refine_exponent : (rounds i : ℕ) → (a d prime exponent m : ℕ) → ℕ
  refine_exponent zero i a d prime exponent m = m
  refine_exponent (suc rounds) i a d prime exponent m =
      let adm = modpow (a * modpow d m prime) exponent prime in
      refine_exponent rounds (suc i) a d prime (exponent / 2)
        (if adm == prime - 1 then m + 2 ^ i else m)

  roots_from : ℕ → ℕ → ℕ → ℕ → ℕ → ℕ
  unfolding refine_exponent
  roots_from n prime s t d0 =
      let d = modpow d0 t prime in
      let m = refine_exponent s 0 (modpow n t prime) d prime (2 ^ (s - 1)) 0 in
      let root_1 = modpow n ((t + 1) / 2) prime * modpow d (m / 2) prime % prime in
      let root_2 = prime - root_1 in if ltb root_1 root_2 then root_1 else root_2

  pub sqrt_tonelli_shanks : (draws : ℕ) → ℕ → ℕ → Option ℕ
  unfolding non_residue roots_from
  sqrt_tonelli_shanks draws n prime =
      if n == 0 || n == 1
      then some n
      else let s = trailing_zeros (prime - 1) in
        elim (non_residue draws 0 prime) [
          | none ↦ none
          | some d ↦ some (roots_from n prime s (prime / 2 ^ s) d)
        ]

  -- The last attempt for p = 5 modulo 8, where the power that was tested is not 1.
  pub attempt : ℕ → ℕ → Option ℕ
  attempt a p =
      let x = 2 * a * modpow (4 * a) ((p - 5) / 8) p % p in
      if modpow x 2 p == a then some x else none

  or_else : Option ℕ → Option ℕ → Option ℕ
  or_else none other = other
  or_else (some x) other = some x

  -- The inner `none` is that no root exists, for numbers that pass the test of Euler.
  pub root_of : (draws : ℕ) → ℕ → ℕ → Option ℕ
  unfolding sqrt_tonelli_shanks smaller_root attempt or_else
  root_of draws a p =
      if p % 4 == 3
      then some (smaller_root (modpow a ((p + 1) / 4) p) p)
      else if p % 8 == 5
      then (if modpow a ((p - 1) / 4) p == 1
          then some (smaller_root (modpow a ((p + 3) / 8) p) p)
          else or_else (attempt a p) (sqrt_tonelli_shanks draws a p))
      else sqrt_tonelli_shanks draws a p

  -- With a bound on the draws of the last case. `none` in the source is that there is no root.
  unfoldable pub sqrt_prime_power : (draws : ℕ) → ℕ → ℕ → Option ℕ
  unfolding root_of
  sqrt_prime_power draws n p =
      if p == 0 || not (is_prime p)
      then none
      else let a = n % p in
        if p == 2
        then some a
        else if not (ltb a 2 || modpow a ((p - 1) / 2) p == 1)
        then none
        else root_of draws a p
