-- ===== src/Math/Division/Euclidean.antt =====
-- vm/src/math_utils/mod.rs: the extended Euclidean algorithm ends with a greatest common divisor
-- and its coefficients.
use native.Mathlib.Nat.{dvd_refl, dvd-zero, dvd-mod_iff}
use Prim.Native.Nat.{◌∣◌}
use cairo_vm.Base.{
  ℕ, zero, suc, ◌+◌, ◌/◌, ◌%◌, ◌<◌, ◌≡◌, refl, sym, ap, ◌∙◌, true, false, arith, ltb→lt, not-ltb→le,
}
use cairo_vm.Base.Int.{ℤ, pos, negsuc, pos_part, neg_part, ◌+ℤ◌}
use cairo_vm.Base.Loops.{while_loop-stops}
use cairo_vm.Base.Modular.{*ℤ-+ℤ}
use cairo_vm.Base.Ring.{
  nat_abs, signum, ◌-ℤ◌, ◌*ℤ◌, ext, +ℤ_parts, -ℤ_parts, product_parts, -ℤ-*ℤ, *ℤ_assoc, +ℤ_comm,
}
use cairo_vm.Math.Division.{Euclid, euclid_step, unfinished, euclid, Bezout, signed_result, igcdex}

-- What the loop keeps: the two equations of coefficients, and that the common divisors of its
-- numbers divide those it started with.
record Combines (m n : ℕ) (e : Euclid) : Type 0 where
  first : e.x *ℤ pos m +ℤ e.y *ℤ pos n ≡ pos e.a
  second : e.r *ℤ pos m +ℤ e.s *ℤ pos n ≡ pos e.b
  divides : (d : ℕ) → d ∣ e.a → d ∣ e.b → (d ∣ m) × (d ∣ n)

-- One round on the coefficients.
round :
    (x y r s a b c q m n : ℤ)
    → x *ℤ m +ℤ y *ℤ n ≡ a
    → r *ℤ m +ℤ s *ℤ n ≡ b
    → a ≡ q *ℤ b +ℤ c
    → (x -ℤ q *ℤ r) *ℤ m +ℤ (y -ℤ q *ℤ s) *ℤ n ≡ c
round x y r s a b c q m n e f g =
    let scaled : q *ℤ (r *ℤ m) +ℤ q *ℤ (s *ℤ n) ≡ q *ℤ b =
      sym (*ℤ-+ℤ q (r *ℤ m) (s *ℤ n)) ∙ ap (λ t. q *ℤ t) f in
    rw (-ℤ-*ℤ, -ℤ-*ℤ, *ℤ_assoc, *ℤ_assoc)
      (ext _ _ (
        omega (
          arith,
          +ℤ_parts,
          -ℤ_parts,
          ap pos_part e,
          ap neg_part e,
          ap pos_part scaled,
          ap neg_part scaled,
          ap pos_part g,
          ap neg_part g,
        )))

pos_division : (a b : ℕ) → pos a ≡ pos (a / b) *ℤ pos b +ℤ pos (a % b)
pos_division a b =
    ext _ _ (omega (arith, simp product_parts at (+ℤ_parts (pos (a / b) *ℤ pos b) (pos (a % b)))))

euclid_step-Combines :
    (m n : ℕ) (e : Euclid)
    → unfinished e ≡ true
    → Combines m n e
    → Combines m n (euclid_step e) × ((euclid_step e).b < e.b)
unfolding euclid_step unfinished
euclid_step-Combines m n e more c =
    let h : 0 < e.b = ltb→lt 0 e.b more in
    (
      record {
        first = c.second;
        second = round _ _ _ _ _ _ _ (pos (e.a / e.b)) _ _ c.first c.second (pos_division e.a e.b);
        divides = λ d p q. c.divides d ((dvd-mod_iff d p).0 q) p;
      },
      omega arith,
    )

left_unit : (a b : ℤ) → pos 1 *ℤ a +ℤ pos 0 *ℤ b ≡ a
left_unit a b = ext _ _ (omega (arith, simp product_parts at (+ℤ_parts (pos 1 *ℤ a) (pos 0 *ℤ b))))

right_unit : (a b : ℤ) → pos 0 *ℤ a +ℤ pos 1 *ℤ b ≡ b
right_unit a b = ext _ _ (omega (arith, simp product_parts at (+ℤ_parts (pos 0 *ℤ a) (pos 1 *ℤ b))))

finished : (e : Euclid) → unfinished e ≡ false → e.b ≡ 0
unfolding unfinished
finished e h = omega (arith, not-ltb→le 0 e.b h)

signum_abs : (a : ℤ) → signum a *ℤ a ≡ pos (nat_abs a)
unfolding signum ◌*ℤ◌
signum_abs (pos zero) = refl
signum_abs (pos (suc n)) = ap pos (omega arith)
signum_abs (negsuc n) = ap pos (omega arith)

start-Combines :
    (m n : ℕ) → Combines m n (record { a = m; b = n; r = pos 0; s = pos 1; x = pos 1; y = pos 0 })
start-Combines m n = record {
  first = left_unit (pos m) (pos n);
  second = right_unit (pos m) (pos n);
  divides = λ d p q. (p, q);
}

euclid-Combines : (m n : ℕ) → Combines m n (euclid m n) × ((euclid m n).b ≡ 0)
unfolding euclid
euclid-Combines m n =
    let end =
      while_loop-stops {S = Euclid} unfinished euclid_step (Combines m n) (λ e. e.b)
        (euclid_step-Combines m n) (n + 1)
        (record { a = m; b = n; r = pos 0; s = pos 1; x = pos 1; y = pos 0 }) (start-Combines m n)
        (omega arith) in
    (end.1, finished (euclid m n) end.0)

signum-*ℤ : (x a : ℤ) → x *ℤ signum a *ℤ a ≡ x *ℤ pos (nat_abs a)
signum-*ℤ x a = *ℤ_assoc x (signum a) a ∙ ap (λ t. x *ℤ t) (signum_abs a)

euclid-ends : (m n : ℕ) → unfinished (euclid m n) ≡ false
unfolding euclid
euclid-ends m n =
    (while_loop-stops {S = Euclid} unfinished euclid_step (Combines m n) (λ e. e.b)
      (euclid_step-Combines m n) (n + 1)
      (record { a = m; b = n; r = pos 0; s = pos 1; x = pos 1; y = pos 0 }) (start-Combines m n)
      (omega arith)).0

abbrev IsBezout : ℤ → ℤ → Bezout → Type 0
IsBezout a b z = (z.x *ℤ a +ℤ z.y *ℤ b ≡ pos z.g) × (z.g ∣ nat_abs a) × (z.g ∣ nat_abs b)

signed_result-IsBezout :
    (a b : ℤ) → IsBezout a b (signed_result a b (euclid (nat_abs a) (nat_abs b)))
unfolding signed_result
signed_result-IsBezout a b =
    let end = euclid-Combines (nat_abs a) (nat_abs b) in
    let e = euclid (nat_abs a) (nat_abs b) in
    let divides = end.0.divides e.a (dvd_refl e.a) (rw (end.1) (dvd-zero e.a)) in
    (rw (signum-*ℤ e.x a, signum-*ℤ e.y b) end.0.first, divides.0, divides.1)

only_right : (a b : ℤ) → pos 0 *ℤ a +ℤ signum b *ℤ b ≡ pos (nat_abs b)
only_right a b =
    rw (signum_abs b)
      (ext _ _ (omega (arith, simp product_parts at (+ℤ_parts (pos 0 *ℤ a) (pos (nat_abs b))))))

only_left : (a b : ℤ) → signum a *ℤ a +ℤ pos 0 *ℤ b ≡ pos (nat_abs a)
only_left a b = +ℤ_comm _ _ ∙ only_right b a

with_end :
    (a b : ℤ)
    → let z = signed_result a b (euclid (nat_abs a) (nat_abs b)) in
      (z.x *ℤ a +ℤ z.y *ℤ b ≡ pos z.g)
      × (z.g ∣ nat_abs a)
      × (z.g ∣ nat_abs b)
      × (unfinished (euclid (nat_abs a) (nat_abs b)) ≡ false)
with_end a b =
    let bezout = signed_result-IsBezout a b in
    (bezout.0, bezout.1, bezout.2, euclid-ends (nat_abs a) (nat_abs b))

-- For integers of any sign `igcdex` returns g = x * a + y * b, where g divides the absolute values
-- of a and b. Its Euclidean loop ends on those values by its own test.
pub igcdex_lem :
    (a b : ℤ)
    → ((igcdex a b).x *ℤ a +ℤ (igcdex a b).y *ℤ b ≡ pos (igcdex a b).g)
      × ((igcdex a b).g ∣ nat_abs a)
      × ((igcdex a b).g ∣ nat_abs b)
      × (unfinished (euclid (nat_abs a) (nat_abs b)) ≡ false)
unfolding igcdex
igcdex_lem (pos zero) (pos zero) =
    (right_unit (pos 0) (pos 0), dvd_refl 0, dvd_refl 0, euclid-ends 0 0)
igcdex_lem (pos zero) (pos (suc n)) =
    (only_right (pos 0) (pos (suc n)), dvd-zero (suc n), dvd_refl (suc n), euclid-ends 0 (suc n))
igcdex_lem (pos zero) (negsuc n) =
    (only_right (pos 0) (negsuc n), dvd-zero (suc n), dvd_refl (suc n), euclid-ends 0 (suc n))
igcdex_lem (pos (suc m)) (pos zero) =
    (only_left (pos (suc m)) (pos 0), dvd_refl (suc m), dvd-zero (suc m), euclid-ends (suc m) 0)
igcdex_lem (negsuc m) (pos zero) =
    (only_left (negsuc m) (pos 0), dvd_refl (suc m), dvd-zero (suc m), euclid-ends (suc m) 0)
igcdex_lem (pos (suc m)) (pos (suc n)) = with_end (pos (suc m)) (pos (suc n))
igcdex_lem (pos (suc m)) (negsuc n) = with_end (pos (suc m)) (negsuc n)
igcdex_lem (negsuc m) (pos (suc n)) = with_end (negsuc m) (pos (suc n))
igcdex_lem (negsuc m) (negsuc n) = with_end (negsuc m) (negsuc n)
