-- ===== src/Base/Ring.antt =====
-- `num_bigint::BigInt`: products, signs and floor division of integers, and their laws. Sums and
-- products go through the two parts of an integer, which are numbers.
use cairo_vm.Base.{ℕ, zero, suc, ◌+◌, ◌-◌, ◌*◌, ◌/◌, ◌%◌, ◌≡◌, ap, Bool, true, false, arith}
use cairo_vm.Base.Int.{ℤ, pos, negsuc, pos_part, neg_part, ◌+ℤ◌}

-- -n, and -a.
abbrev pub neg_ℕ : ℕ → ℤ
neg_ℕ zero = pos zero
neg_ℕ (suc n) = negsuc n

pub neg_ℤ : ℤ → ℤ
neg_ℤ (pos n) = neg_ℕ n
neg_ℤ (negsuc n) = pos (suc n)

-- `BigInt::abs` and `BigInt::signum`
abbrev pub nat_abs : ℤ → ℕ
nat_abs (pos n) = n
nat_abs (negsuc n) = suc n

-- `Zero::is_zero`
abbrev pub is_zero : ℤ → Bool
is_zero (pos zero) = true
is_zero (pos (suc n)) = false
is_zero (negsuc n) = false

unfoldable pub signum : ℤ → ℤ
signum (pos zero) = pos 0
signum (pos (suc n)) = pos 1
signum (negsuc n) = negsuc 0

infixl 65 ◌-ℤ◌
infixl 70 ◌*ℤ◌
unfoldable pub ◌-ℤ◌ : ℤ → ℤ → ℤ
unfolding neg_ℤ ◌+ℤ◌
a -ℤ b = a +ℤ neg_ℤ b

unfoldable pub ◌*ℤ◌ : ℤ → ℤ → ℤ
pos m *ℤ pos n = pos (m * n)
pos m *ℤ negsuc n = neg_ℕ (m * suc n)
negsuc m *ℤ pos n = neg_ℕ (suc m * n)
negsuc m *ℤ negsuc n = pos (suc m * suc n)

-- The parts determine the integer.
pub ext : (a b : ℤ) → pos_part a + neg_part b ≡ pos_part b + neg_part a → a ≡ b
ext a b h = ground arith

pub +ℤ_parts :
    (a b : ℤ)
    → pos_part (a +ℤ b) + neg_part a + neg_part b ≡ neg_part (a +ℤ b) + pos_part a + pos_part b
unfolding ◌+ℤ◌
+ℤ_parts a b = ground arith

pub pos_part-neg_ℤ : (a : ℤ) → pos_part (neg_ℤ a) ≡ neg_part a
unfolding neg_ℤ
pos_part-neg_ℤ a = ground arith

pub neg_part-neg_ℤ : (a : ℤ) → neg_part (neg_ℤ a) ≡ pos_part a
unfolding neg_ℤ
neg_part-neg_ℤ a = ground arith

pub -ℤ_parts :
    (a b : ℤ)
    → pos_part (a -ℤ b) + neg_part a + pos_part b ≡ neg_part (a -ℤ b) + pos_part a + neg_part b
unfolding ◌-ℤ◌
-ℤ_parts a b = omega (arith, +ℤ_parts a (neg_ℤ b), pos_part-neg_ℤ b, neg_part-neg_ℤ b)

pub pos_part-*ℤ : (a b : ℤ) → pos_part (a *ℤ b) ≡ pos_part a * pos_part b + neg_part a * neg_part b
unfolding ◌*ℤ◌
pos_part-*ℤ a b = ground arith

pub neg_part-*ℤ : (a b : ℤ) → neg_part (a *ℤ b) ≡ pos_part a * neg_part b + neg_part a * pos_part b
unfolding ◌*ℤ◌
neg_part-*ℤ a b = ground arith

pub ruleset product_parts = (pos_part-*ℤ, neg_part-*ℤ)

pub +ℤ_comm : (a b : ℤ) → a +ℤ b ≡ b +ℤ a
+ℤ_comm a b = ext _ _ (omega (arith, +ℤ_parts))

pub +ℤ_assoc : (a b c : ℤ) → a +ℤ b +ℤ c ≡ a +ℤ (b +ℤ c)
+ℤ_assoc a b c = ext _ _ (omega (arith, +ℤ_parts))

pub *ℤ_comm : (a b : ℤ) → a *ℤ b ≡ b *ℤ a
*ℤ_comm a b = ext _ _ (simp product_parts (omega arith))

pub *ℤ_assoc : (a b c : ℤ) → a *ℤ b *ℤ c ≡ a *ℤ (b *ℤ c)
*ℤ_assoc a b c = ext _ _ (simp product_parts (omega arith))

-- Equations between parts, multiplied by the parts of another integer.
pub +ℤ-*ℤ : (a b c : ℤ) → (a +ℤ b) *ℤ c ≡ a *ℤ c +ℤ b *ℤ c
+ℤ-*ℤ a b c = ext _ _ (
    simp product_parts (
      omega (
        arith,
        simp product_parts at (+ℤ_parts (a *ℤ c) (b *ℤ c)),
        ap (λ (t : ℕ). t * pos_part c) (+ℤ_parts a b),
        ap (λ (t : ℕ). t * neg_part c) (+ℤ_parts a b),
      )))

pub -ℤ-*ℤ : (a b c : ℤ) → (a -ℤ b) *ℤ c ≡ a *ℤ c -ℤ b *ℤ c
-ℤ-*ℤ a b c = ext _ _ (
    simp product_parts (
      omega (
        arith,
        simp product_parts at (-ℤ_parts (a *ℤ c) (b *ℤ c)),
        ap (λ (t : ℕ). t * pos_part c) (-ℤ_parts a b),
        ap (λ (t : ℕ). t * neg_part c) (-ℤ_parts a b),
      )))

-- `Integer::div_mod_floor`: the quotient is rounded down and the remainder has the sign of the
-- divisor. The divisor is not 0.
pub record Floor : Type 0 where
  pub q : ℤ
  pub r : ℤ

unfoldable pub floor_by : ℤ → ℕ → Floor
floor_by (pos n) d = record { q = pos (n / d); r = pos (n % d) }
floor_by (negsuc n) d = record { q = negsuc (n / d); r = pos (d - 1 - n % d) }

unfoldable pub div_mod_floor : ℤ → ℤ → Floor
unfolding floor_by neg_ℤ
div_mod_floor a (pos d) = floor_by a d
div_mod_floor a (negsuc d) = let f = floor_by (neg_ℤ a) (suc d) in record { q = f.q; r = neg_ℤ f.r }

unfoldable pub mod_floor : ℤ → ℤ → ℤ
unfolding div_mod_floor
mod_floor a b = (div_mod_floor a b).r
