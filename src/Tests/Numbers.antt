-- ===== src/Tests/Numbers.antt =====
-- The integer functions on concrete numbers.
use Prim.Native.Nat.{◌∣◌}
use native.Mathlib.Nat.{dvd-sub, dvd-mul_left_of_dvd, eq-one_of_dvd-one}
use cairo_vm.Base.{
  ℕ, ◌+◌, ◌-◌, ◌*◌, ◌/◌, ◌%◌, ◌^◌, ◌≤◌, ◌<◌, ◌≡◌, refl, zero, suc, Bool, true, not, ◌&&◌, ltb,
  if◌then◌else◌, ◌==◌, arith, none, some, false,
}
use cairo_vm.Base.Int.{pos, negsuc, ◌+ℤ◌}
use cairo_vm.Base.Loops.{while_loop, while_within}
use cairo_vm.Base.Result.{ok, err}
use cairo_vm.Base.Ring.{nat_abs, signum, div_mod_floor, mod_floor, ◌*ℤ◌, ◌-ℤ◌}
use cairo_vm.Math.Curve.{point, ec_add, ec_double}
use cairo_vm.Math.Curve.Chord.{IsChordSum, ec_add-IsChordSum}
use cairo_vm.Math.Division.{igcdex, mul_inv, div_mod, safe_div_bigint, euclid, unfinished}
use cairo_vm.Math.Division.Euclidean.{igcdex_lem}
use cairo_vm.Math.Division.Inverse.{mul_inv-igcdex, div_mod-IsSolution}
use cairo_vm.Math.Felts.{signed_felt, signed_felt_max, signed_felt-mod_floor}
use cairo_vm.Math.Residues.{NumberOps, sqrt_prime_power}
use cairo_vm.Math.Residues.Roots.{sqrt_prime_power-square}
use cairo_vm.Math.Sqrt.{isqrt, isqrt_lem}
use cairo_vm.Types.Errors.{MathError}
use cairo_vm.Types.Felt.{cairo_prime}

root_of_million : isqrt 100 1_000_001 ≡ some (ok 1000)
unfolding isqrt while_within
root_of_million = refl

-- The loop takes as many tests as it takes.
two_tests_short : isqrt 2 1_000_001 ≡ none
unfolding isqrt while_within
two_tests_short = refl

coefficients : igcdex (negsuc 239) (pos 46) ≡ record { x = pos 9; y = pos 47; g = 2 }
unfolding igcdex ◌*ℤ◌ while_loop ◌-ℤ◌ signum
coefficients = refl

divided : div_mod (pos 2) (pos 3) (pos 7) ≡ ok (pos 3)
unfolding div_mod igcdex while_loop mod_floor ◌*ℤ◌ ◌-ℤ◌ signum
divided = refl

not_coprime :
    div_mod (pos 2) (pos 6) (pos 9)
    ≡ err (MathError.div_mod_igcdex_not_zero (pos 2) (pos 6) (pos 9))
unfolding div_mod igcdex while_loop mod_floor ◌*ℤ◌ ◌-ℤ◌ signum
not_coprime = refl

inexact :
    safe_div_bigint (negsuc 6) (pos 2) ≡ err (MathError.safe_div_fail_big_int (negsuc 6) (pos 2))
unfolding safe_div_bigint div_mod_floor
inexact = refl

exact_negative : safe_div_bigint (negsuc 5) (pos 2) ≡ ok (negsuc 2)
unfolding safe_div_bigint div_mod_floor
exact_negative = refl

-- On y^2 = x^3 + 2x + 3 modulo 97.
sum_of_points :
    ec_add (point (pos 3) (pos 6)) (point (pos 80) (pos 10)) (pos 97) ≡ ok (point (pos 80) (pos 87))
unfolding ec_add div_mod igcdex while_loop mod_floor ◌*ℤ◌ ◌-ℤ◌ signum ◌+ℤ◌
sum_of_points = refl

doubled_point : ec_double (point (pos 3) (pos 6)) (pos 2) (pos 97) ≡ ok (point (pos 80) (pos 10))
unfolding ec_double div_mod igcdex while_loop mod_floor ◌*ℤ◌ ◌-ℤ◌ signum ◌+ℤ◌
doubled_point = refl

isqrt_lem_example : (x : ℕ) × (isqrt 11 10 ≡ some (ok x)) × (x * x ≤ 10) × (10 < (x + 1) * (x + 1))
isqrt_lem_example = isqrt_lem 11 10 (omega arith)

igcdex_lem_example :
    ((igcdex (negsuc 239) (pos 46)).x *ℤ negsuc 239 +ℤ (igcdex (negsuc 239) (pos 46)).y *ℤ pos 46
      ≡ pos (igcdex (negsuc 239) (pos 46)).g)
    × ((igcdex (negsuc 239) (pos 46)).g ∣ 240)
    × ((igcdex (negsuc 239) (pos 46)).g ∣ 46)
    × (unfinished (euclid 240 46) ≡ false)
igcdex_lem_example = igcdex_lem (negsuc 239) (pos 46)

mul_inv-igcdex_example : mul_inv (pos 3) (pos 7) ≡ (igcdex (pos 3) (pos 7)).x
mul_inv-igcdex_example = mul_inv-igcdex (pos 3) (pos 7)

three_seven : (d : ℕ) → d ∣ 3 → d ∣ 7 → d ≡ 1
three_seven d three seven = eq-one_of_dvd-one (dvd-sub d seven (dvd-mul_left_of_dvd d three 2))

div_mod-IsSolution_example :
    (x : ℕ) × (div_mod (pos 2) (pos 3) (pos 7) ≡ ok (pos x))
    × (x < 7)
    × (mod_floor (pos 3 *ℤ pos x) (pos 7) ≡ mod_floor (pos 2) (pos 7))
div_mod-IsSolution_example = div_mod-IsSolution (pos 2) (pos 3) 7 (omega arith) three_seven

five_two : (d : ℕ) → d ∣ 2 → d ∣ 7 → d ≡ 1
five_two d two seven = eq-one_of_dvd-one (dvd-sub d seven (dvd-mul_left_of_dvd d two 3))

-- On y^2 = x^3 + 2 modulo 7.
ec_add-IsChordSum_example :
    (x : ℕ) × (y : ℕ) × (ec_add (point (pos 5) (pos 1)) (point (pos 3) (pos 1)) (pos 7)
      ≡ ok (point (pos x) (pos y)))
    × IsChordSum 7 (point (pos 5) (pos 1)) (point (pos 3) (pos 1)) x y
unfolding ◌-ℤ◌
ec_add-IsChordSum_example =
    ec_add-IsChordSum (point (pos 5) (pos 1)) (point (pos 3) (pos 1)) 7 (omega arith) five_two

signed_felt-mod_floor_example :
    (nat_abs (signed_felt (cairo_prime - 1)) ≤ signed_felt_max)
    × (mod_floor (signed_felt (cairo_prime - 1)) (pos cairo_prime) ≡ pos (cairo_prime - 1))
signed_felt-mod_floor_example = signed_felt-mod_floor (cairo_prime - 1) (omega arith)

-- Modular powers by powers, primes by trial division, and numbers drawn in order.
divisor_free : ℕ → ℕ → Bool
divisor_free zero n = true
divisor_free (suc k) n = not (n % (k + 2) == 0) && divisor_free k n

zeros : ℕ → ℕ → ℕ
zeros zero n = 0
zeros (suc fuel) n = let rest = zeros fuel (n / 2) in if n % 2 == 0 then rest + 1 else 0

instance abbrev number_ops : NumberOps
number_ops = record {
  modpow = λ b e m. b ^ e % m;
  is_prime = λ n. ltb 1 n && divisor_free (n - 2) n;
  trailing_zeros = λ n. zeros n n;
  drawn = λ low high k. low + k % (high - low);
  modpow_lem = λ b e m h. refl;
}

mod_thirteen : sqrt_prime_power 20 10 13 ≡ some 7
unfolding sqrt_prime_power divisor_free zeros
mod_thirteen = refl

mod_seventeen : sqrt_prime_power 20 8 17 ≡ some 5
unfolding sqrt_prime_power divisor_free zeros
mod_seventeen = refl

sqrt_prime_power-square_example :
    (r : ℕ) × (sqrt_prime_power 9 4 11 ≡ some r) × (r * r % 11 ≡ 4 % 11) × (2 * r ≤ 11)
unfolding divisor_free
sqrt_prime_power-square_example = sqrt_prime_power-square 9 4 11 refl refl refl
