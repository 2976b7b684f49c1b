-- ===== src/Math/Curve/Chord.antt =====
-- vm/src/math_utils/mod.rs: the sum of two points lies, reflected, on their line.
use Prim.Native.Nat.{◌∣◌}
use cairo_vm.Base.{ℕ, ◌<◌, ◌≡◌, refl, ap, ◌∙◌, arith}
use cairo_vm.Base.Int.{ℤ, pos, pos_part, neg_part, ◌+ℤ◌}
use cairo_vm.Base.Modular.{Congruent, Congruent-sym, Congruent-mod_floor, mod_floor_lem}
use cairo_vm.Base.Result.{ok}
use cairo_vm.Base.Ring.{nat_abs, ◌-ℤ◌, ◌*ℤ◌, mod_floor, *ℤ_comm, ext, +ℤ_parts, -ℤ_parts}
use cairo_vm.Math.Curve.{Point, point, line_slope, third_point, ec_add}
use cairo_vm.Math.Division.Inverse.{div_mod-IsSolution}

-- What the chord rule asks of the sum (x, y) of a and b: a slope m of the line through a and b, such
-- that (x, -y) is on that line, and the three first coordinates add up to the square of m.
pub record IsChordSum (p : ℕ) (a b : Point) (x y : ℕ) : Type 0 where
  pub reduced : (x < p) × (y < p)
  pub slope : ℤ
  pub joins : mod_floor (slope *ℤ (a.x -ℤ b.x)) (pos p) ≡ mod_floor (a.y -ℤ b.y) (pos p)
  pub passes : mod_floor (slope *ℤ (a.x -ℤ pos x)) (pos p) ≡ mod_floor (a.y +ℤ pos y) (pos p)
  pub adds : mod_floor (a.x +ℤ b.x +ℤ pos x) (pos p) ≡ mod_floor (slope *ℤ slope) (pos p)

move_right : {p : ℕ} {w : ℤ} (u v : ℤ) → Congruent p (u -ℤ v) w → Congruent p u (v +ℤ w)
move_right {p} {w} u v c =
    let t = c.times *ℤ pos p in
    record {
      times = c.times;
      differ =
          ext _ _ (omega (arith, +ℤ_parts, -ℤ_parts, ap pos_part c.differ, ap neg_part c.differ));
    }

regroup : {p : ℕ} {w : ℤ} (u a b : ℤ) → Congruent p (u -ℤ a -ℤ b) w → Congruent p (u -ℤ (a +ℤ b)) w
regroup {p} {w} u a b c =
    let e : u -ℤ (a +ℤ b) ≡ u -ℤ a -ℤ b = ext _ _ (omega (arith, +ℤ_parts, -ℤ_parts)) in
    record { times = c.times; differ = e ∙ c.differ }

-- For a positive p without a common divisor but 1 with the difference of the first coordinates,
-- `ec_add` returns a reduced point that the chord rule describes: its reflection is on the line
-- through the two points, and the first coordinates of the three add up to the square of the slope.
pub ec_add-IsChordSum :
    (a b : Point) (p : ℕ)
    → 0 < p
    → ((d : ℕ) → d ∣ nat_abs (a.x -ℤ b.x) → d ∣ p → d ≡ 1)
    → (x : ℕ) × (y : ℕ) × (ec_add a b (pos p) ≡ ok (point (pos x) (pos y))) × IsChordSum p a b x y
unfolding ec_add line_slope third_point
ec_add-IsChordSum a b p h coprime =
    let m = div_mod-IsSolution (a.y -ℤ b.y) (a.x -ℤ b.x) p h coprime in
    let k = pos (m.0) in
    let x = mod_floor_lem (k *ℤ k -ℤ a.x -ℤ b.x) p h in
    let y = mod_floor_lem (k *ℤ (a.x -ℤ pos x.0) -ℤ a.y) p h in
    (
      x.0,
      y.0,
      rw (m.1, x.1, y.1) refl,
      record {
        reduced = (x.2, y.2);
        slope = k;
        joins = rw (*ℤ_comm k (a.x -ℤ b.x)) m.3;
        passes = Congruent-mod_floor h (move_right (k *ℤ (a.x -ℤ pos x.0)) a.y y.3);
        adds =
            Congruent-mod_floor h
              (Congruent-sym (move_right (k *ℤ k) (a.x +ℤ b.x) (regroup (k *ℤ k) a.x b.x x.3)));
      },
    )
