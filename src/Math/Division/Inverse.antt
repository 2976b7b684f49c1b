-- ===== src/Math/Division/Inverse.antt =====
-- vm/src/math_utils/mod.rs: division modulo p solves its congruence, and `mul_inv` is the
-- coefficient that `igcdex` computes.
use Prim.Native.Nat.{◌∣◌}
use cairo_vm.Base.{ℕ, zero, suc, ◌+◌, ◌<◌, ◌≡◌, refl, sym, ap, ◌∙◌, arith}
use cairo_vm.Base.Int.{ℤ, pos, negsuc, ◌+ℤ◌}
use cairo_vm.Base.Loops.{while_loop, while_loop_projected}
use cairo_vm.Base.Modular.{
  Congruent, Congruent-sym, Congruent-trans, Congruent-mul, Congruent-mod_floor, mod_floor_lem,
}
use cairo_vm.Base.Result.{ok}
use cairo_vm.Base.Ring.{nat_abs, signum, ◌*ℤ◌, ext, product_parts, mod_floor, *ℤ_assoc, *ℤ_comm}
use cairo_vm.Math.Division.{
  Euclid, euclid, euclid_step, unfinished, HalfEuclid, half_step, half_unfinished, half_euclid,
  igcdex, mul_inv, div_mod, signed_result, reduced,
}
use cairo_vm.Math.Division.Euclidean.{igcdex_lem}

half : Euclid → HalfEuclid
half e = record { a = e.a; b = e.b; r = e.r; x = e.x }

half_euclid-euclid : (a b : ℕ) → half_euclid a b ≡ half (euclid a b)
unfolding half_euclid euclid half half_unfinished unfinished half_step euclid_step
half_euclid-euclid a b =
    while_loop_projected half unfinished euclid_step half_unfinished half_step (λ s. refl)
      (λ s. refl) (b + 1) (record { a = a; b = b; r = pos 0; s = pos 1; x = pos 1; y = pos 0 })

signed_coefficient :
    (a : ℤ) (m n : ℕ) → (half_euclid m n).x *ℤ signum a ≡ (euclid m n).x *ℤ signum a
unfolding half
signed_coefficient a m n = ap (λ e. e.x *ℤ signum a) (half_euclid-euclid m n)

-- `mul_inv` returns the coefficient of its first argument that `igcdex` returns, for integers of
-- any sign and also for zeros.
pub mul_inv-igcdex : (a p : ℤ) → mul_inv a p ≡ (igcdex a p).x
unfolding mul_inv igcdex signed_result half_euclid while_loop half_unfinished signum ◌*ℤ◌
mul_inv-igcdex (pos zero) (pos zero) = refl
mul_inv-igcdex (pos zero) (pos (suc n)) = refl
mul_inv-igcdex (pos zero) (negsuc n) = refl
mul_inv-igcdex (pos (suc m)) (pos zero) = refl
mul_inv-igcdex (negsuc m) (pos zero) = refl
mul_inv-igcdex (pos (suc m)) (pos (suc n)) = signed_coefficient (pos (suc m)) (suc m) (suc n)
mul_inv-igcdex (pos (suc m)) (negsuc n) = signed_coefficient (pos (suc m)) (suc m) (suc n)
mul_inv-igcdex (negsuc m) (pos (suc n)) = signed_coefficient (negsuc m) (suc m) (suc n)
mul_inv-igcdex (negsuc m) (negsuc n) = signed_coefficient (negsuc m) (suc m) (suc n)

-- The coefficient of m inverts it modulo p.
igcdex-Congruent :
    (m : ℤ) (p : ℕ) → (igcdex m (pos p)).g ≡ 1 → Congruent p (m *ℤ (igcdex m (pos p)).x) (pos 1)
igcdex-Congruent m p e =
    let z = igcdex m (pos p) in
    Congruent-sym (record {
      times = z.y;
      differ =
          sym (ap pos e)
          ∙ (sym (igcdex_lem m (pos p)).0 ∙ ap (λ t. t +ℤ z.y *ℤ pos p) (*ℤ_comm z.x m));
    })

*ℤ-one : (n : ℤ) → n *ℤ pos 1 ≡ n
*ℤ-one n = ext _ _ (simp product_parts (omega arith))

swap_first : (m n x : ℤ) → n *ℤ (m *ℤ x) ≡ m *ℤ (n *ℤ x)
swap_first m n x = sym (*ℤ_assoc n m x) ∙ (ap (λ t. t *ℤ x) (*ℤ_comm n m) ∙ *ℤ_assoc m n x)

solves :
    (n m x : ℤ) (p k : ℕ)
    → Congruent p (m *ℤ x) (pos 1)
    → Congruent p (n *ℤ x) (pos k)
    → Congruent p (m *ℤ pos k) n
solves n m x p k inverse residue =
    Congruent-trans (Congruent-mul m (Congruent-sym residue))
      (rw (swap_first m n x, *ℤ-one n) at (Congruent-mul n inverse))

-- For a positive p that has no common divisor with m but 1, `div_mod` returns a number x below p
-- with m * x congruent to n modulo p.
pub div_mod-IsSolution :
    (n m : ℤ) (p : ℕ)
    → 0 < p
    → ((d : ℕ) → d ∣ nat_abs m → d ∣ p → d ≡ 1)
    → (x : ℕ) × (div_mod n m (pos p) ≡ ok (pos x))
      × (x < p)
      × (mod_floor (m *ℤ pos x) (pos p) ≡ mod_floor n (pos p))
unfolding div_mod reduced
div_mod-IsSolution n m zero h coprime = elim h [ ]
div_mod-IsSolution n m (suc p) h coprime =
    let z = igcdex m (pos (suc p)) in
    let d = igcdex_lem m (pos (suc p)) in
    let one : z.g ≡ 1 = coprime z.g d.1 d.2 in
    let k = mod_floor_lem (n *ℤ z.x) (suc p) h in
    (
      k.0,
      rw (one, k.1) refl,
      k.2,
      Congruent-mod_floor h (solves n m z.x (suc p) k.0 (igcdex-Congruent m (suc p) one) k.3),
    )
