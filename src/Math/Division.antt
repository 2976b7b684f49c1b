-- ===== src/Math/Division.antt =====
-- vm/src/math_utils/mod.rs: exact division, the extended Euclidean algorithm and modular division.
pub mod Euclidean
pub mod Inverse
use cairo_vm.Base.{
  ℕ, zero, suc, ◌+◌, ◌-◌, ◌*◌, ◌/◌, ◌%◌, ◌<◌, Bool, true, false, ltb, ◌==◌, if◌then◌else◌,
}
use cairo_vm.Base.Int.{ℤ, pos, negsuc, eqb_ℤ, ◌+ℤ◌}
use cairo_vm.Base.Loops.{while_loop}
use cairo_vm.Base.Result.{Result, ok, err, ◌>>=◌}
use cairo_vm.Base.Ring.{
  is_zero, nat_abs, signum, neg_ℤ, ◌-ℤ◌, ◌*ℤ◌, Floor, floor_by, div_mod_floor, mod_floor,
}
use cairo_vm.Types.Errors.{MathError, panicked}

unfoldable pub safe_div_usize : ℕ → ℕ → Result MathError ℕ
safe_div_usize x y =
    if y == 0
    then err MathError.divided_by_zero
    else if x % y == 0
    then ok (x / y)
    else err (MathError.safe_div_fail_usize x y)

exact : ℤ → ℤ → Floor → Result MathError ℤ
exact x y d = if is_zero d.r then ok d.q else err (MathError.safe_div_fail_big_int x y)

unfoldable pub safe_div_bigint : ℤ → ℤ → Result MathError ℤ
unfolding exact
safe_div_bigint x y =
    if is_zero y then err MathError.divided_by_zero else exact x y (div_mod_floor x y)

-- The variables of the loop. `a` and `b` start as absolute values and stay natural numbers.
pub record Euclid : Type 0 where
  pub a : ℕ
  pub b : ℕ
  pub r : ℤ
  pub s : ℤ
  pub x : ℤ
  pub y : ℤ

pub euclid_step : Euclid → Euclid
euclid_step e =
    let q = pos (e.a / e.b) in
    record { a = e.b; b = e.a % e.b; r = e.x -ℤ q *ℤ e.r; s = e.y -ℤ q *ℤ e.s; x = e.r; y = e.s }

pub unfinished : Euclid → Bool
unfinished e = ltb 0 e.b

-- `b` becomes smaller in each round, so b + 1 rounds are enough.
pub euclid : ℕ → ℕ → Euclid
unfolding euclid_step unfinished
euclid a b =
    while_loop unfinished euclid_step (b + 1)
      (record { a = a; b = b; r = pos 0; s = pos 1; x = pos 1; y = pos 0 })

-- x, y and g with g = x * a + y * b.
pub record Bezout : Type 0 where
  pub x : ℤ
  pub y : ℤ
  pub g : ℕ

pub signed_result : ℤ → ℤ → Euclid → Bezout
signed_result a b e = record { x = e.x *ℤ signum a; y = e.y *ℤ signum b; g = e.a }

unfoldable pub igcdex : ℤ → ℤ → Bezout
unfolding signed_result euclid
igcdex num_a num_b =
    if is_zero num_a
    then (if is_zero num_b
        then record { x = pos 0; y = pos 1; g = 0 }
        else record { x = pos 0; y = signum num_b; g = nat_abs num_b })
    else if is_zero num_b
    then record { x = signum num_a; y = pos 0; g = nat_abs num_a }
    else signed_result num_a num_b (euclid (nat_abs num_a) (nat_abs num_b))

-- `mul_inv` runs the same loop without the coefficient of p.
pub record HalfEuclid : Type 0 where
  pub a : ℕ
  pub b : ℕ
  pub r : ℤ
  pub x : ℤ

pub half_step : HalfEuclid → HalfEuclid
half_step e = record { a = e.b; b = e.a % e.b; r = e.x -ℤ pos (e.a / e.b) *ℤ e.r; x = e.r }

pub half_unfinished : HalfEuclid → Bool
half_unfinished e = ltb 0 e.b

pub half_euclid : ℕ → ℕ → HalfEuclid
unfolding half_step half_unfinished
half_euclid a b =
    while_loop half_unfinished half_step (b + 1) (record { a = a; b = b; r = pos 0; x = pos 1 })

unfoldable pub mul_inv : ℤ → ℤ → ℤ
unfolding half_euclid
mul_inv num_a p =
    if is_zero num_a then pos 0 else (half_euclid (nat_abs num_a) (nat_abs p)).x *ℤ signum num_a

reduced : ℤ → ℤ → Result MathError ℤ
reduced n p = if is_zero p then err panicked else ok (mod_floor n p)

unfoldable pub div_mod : ℤ → ℤ → ℤ → Result MathError ℤ
unfolding reduced
div_mod n m p =
    let e = igcdex m p in
    if e.g == 1 then reduced (n *ℤ e.x) p else err (MathError.div_mod_igcdex_not_zero n m p)

-- The conversion of the result unwraps: a negative number would panic.
to_biguint : ℤ → Result MathError ℕ
to_biguint (pos n) = ok n
to_biguint (negsuc n) = err panicked

pub div_mod_unsigned : ℕ → ℕ → ℕ → Result MathError ℕ
unfolding to_biguint
div_mod_unsigned n m p = div_mod (pos n) (pos m) (pos p) >>= to_biguint
