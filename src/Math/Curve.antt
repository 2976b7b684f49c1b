-- ===== src/Math/Curve.antt =====
-- vm/src/math_utils/mod.rs: addition and doubling of points on a curve modulo a prime. A slope that
-- is returned has been reduced by the prime, so the prime is not 0 in the reductions that follow.
-- The debug assertions, which a release build drops, are left out.
use cairo_vm.Base.{ℕ}
use cairo_vm.Base.Int.{ℤ, pos, ◌+ℤ◌}
use cairo_vm.Base.Result.{Result, ok, ◌>>=◌}
use cairo_vm.Base.Ring.{◌-ℤ◌, ◌*ℤ◌, mod_floor}
use cairo_vm.Math.Division.{div_mod}
use cairo_vm.Types.Errors.{MathError}
pub mod Chord

pub record Point : Type 0 where
  pub x : ℤ
  pub y : ℤ

abbrev pub point : ℤ → ℤ → Point
point x y = record { x = x; y = y }

pub line_slope : Point → Point → ℤ → Result MathError ℤ
line_slope a b prime = div_mod (a.y -ℤ b.y) (a.x -ℤ b.x) prime

-- The third point of the line through `a` with slope m, reflected.
third_point : Point → ℤ → ℤ → ℤ → Point
third_point a m other prime =
    let x = mod_floor (m *ℤ m -ℤ a.x -ℤ other) prime in
    point x (mod_floor (m *ℤ (a.x -ℤ x) -ℤ a.y) prime)

unfoldable pub ec_add : Point → Point → ℤ → Result MathError Point
unfolding line_slope third_point
ec_add a b prime = line_slope a b prime >>= λ m. ok (third_point a m b.x prime)

pub ec_double_slope : Point → ℤ → ℤ → Result MathError ℤ
ec_double_slope p alpha prime = div_mod (pos 3 *ℤ p.x *ℤ p.x +ℤ alpha) (pos 2 *ℤ p.y) prime

unfoldable pub ec_double : Point → ℤ → ℤ → Result MathError Point
unfolding ec_double_slope
ec_double p alpha prime = ec_double_slope p alpha prime >>= λ m.
    let x = mod_floor (m *ℤ m -ℤ pos 2 *ℤ p.x) prime in
    ok (point x (mod_floor (m *ℤ (p.x -ℤ x) -ℤ p.y) prime))
