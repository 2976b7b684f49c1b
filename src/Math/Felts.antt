-- ===== src/Math/Felts.antt =====
-- vm/src/math_utils/mod.rs: powers of two and signed values of field elements. The table of powers
-- holds nonzero field elements, which are written as felts.
use cairo_vm.Base.{
  ℕ, zero, suc, ◌-◌, ◌/◌, ◌≤◌, ◌≡◌, List, [], ◌∷◌, Option, none, some, ltb, if◌then◌else◌,
  get_elem?, arith,
}
use cairo_vm.Base.Int.{ℤ, pos}
use cairo_vm.Base.Ring.{neg_ℕ, nat_abs, mod_floor, div_mod_floor, floor_by}
use cairo_vm.Types.Felt.{FeltOps, Felt, IsFelt, cairo_prime}

pub signed_felt_max : ℕ
signed_felt_max = cairo_prime / 2

-- `BigInt::from_biguint(Sign::Minus, n)` is -n.
pub signed_felt : Felt → ℤ
unfolding signed_felt_max
signed_felt x = if ltb signed_felt_max x then neg_ℕ (cairo_prime - x) else pos x

module _ ⦃ops : FeltOps⦄ where
  -- `successors(Some(x), |x| Some(x * 2)).take(n)`
  doublings : ℕ → Felt → List Felt
  doublings zero x = []
  doublings (suc n) x = x ∷ doublings n (ops.mul x 2)

  powers_of_two : List Felt
  unfolding doublings
  powers_of_two = doublings 252 1

  -- An index out of range gives the first element, which there is.
  found_or_first : Option Felt → Option Felt → Felt
  found_or_first (some x) first = x
  found_or_first none (some x) = x
  found_or_first none none = 0

  pub pow2_const : ℕ → Felt
  unfolding powers_of_two found_or_first
  pow2_const n = found_or_first (get_elem? powers_of_two n) (get_elem? powers_of_two 0)

-- The signed value of a field element lies within half the prime, and reduces to the field element
-- again.
pub signed_felt-mod_floor :
    (x : Felt)
    → IsFelt x
    → (nat_abs (signed_felt x) ≤ signed_felt_max)
      × (mod_floor (signed_felt x) (pos cairo_prime) ≡ pos x)
unfolding signed_felt signed_felt_max mod_floor div_mod_floor floor_by
signed_felt-mod_floor x h = ground arith
