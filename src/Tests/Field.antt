-- ===== src/Tests/Field.antt =====
-- The field of the crate starknet-types-core, computed on representatives.
use cairo_vm.Base.{
  ℕ, zero, suc, ◌+◌, ◌-◌, ◌*◌, ◌/◌, ◌%◌, ◌^◌, ◌<◌, ◌≡◌, refl, Option, none, some, arith, ltb, ◌==◌,
  if◌then◌else◌, word,
}
use cairo_vm.Base.Int.{ℤ, pos, negsuc}
use cairo_vm.Base.Result.{ok}
use cairo_vm.Types.Felt.{cairo_prime, Felt, Words, words, FeltOps}
use cairo_vm.Builtins.Runner.{HashOps}

-- `b ^ e` for an exponent of at most `bits` bits.
abbrev pow_mod : ℕ → ℕ → ℕ → ℕ
pow_mod zero b e = 1
pow_mod (suc bits) b e =
    let half = pow_mod bits (b * b % cairo_prime) (e / 2) in
    if e % 2 == 0 then half else b * half % cairo_prime

abbrev small : ℕ → Option ℕ
small n = if ltb n word then some n else none

abbrev signed : ℤ → Felt
signed (pos n) = n % cairo_prime
signed (negsuc n) = cairo_prime - (n + 1)

abbrev minus : ℕ → ℕ → ℕ
minus a b = (a + (cairo_prime - b)) % cairo_prime

abbrev le_digits : ℕ → Words
le_digits x =
    words (x % word) (x / word % word) (x / word / word % word) (x / word / word / word % word)

abbrev from_words : ℕ → ℕ → ℕ → ℕ → ℕ
from_words a b c d = a + word * (b + word * (c + word * d))

pub mod-lt : (n : ℕ) → n % cairo_prime < cairo_prime
mod-lt n = omega arith

pub raw-lt : (x : ℕ) → x < cairo_prime → x / word / word / word < 2 ^ 60
raw-lt x h = omega arith

pub raw-inverse :
    (x : ℕ)
    → x < cairo_prime
    → from_words (x % word) (x / word % word) (x / word / word % word) (x / word / word / word) ≡ x
raw-inverse x h = omega arith

instance abbrev pub felt_ops : FeltOps
felt_ops = record {
  add = λ a b. (a + b) % cairo_prime;
  sub = minus;
  mul = λ a b. (a * b) % cairo_prime;
  field_div = λ a b. a * pow_mod 252 b (cairo_prime - 2) % cairo_prime;
  to_u64 = small;
  from_i128 = signed;
  u64_add = λ n x. small ((n + x) % cairo_prime);
  u64_sub = λ n x. small (minus n x);
  to_raw =
      λ x. words (x / word / word / word) (x / word / word % word) (x / word % word) (x % word);
  from_raw = λ w. from_words w.w3 w.w2 w.w1 w.w0;
  to_le_digits = le_digits;
  from_bytes_le_slice = λ w. from_words w.w0 w.w1 w.w2 w.w3 % cairo_prime;
  add_lem = λ a b. refl;
  sub_lem = λ a b h. refl;
  mul_lem = λ a b. refl;
  field_div-IsFelt = λ a b. mod-lt (a * pow_mod 252 b (cairo_prime - 2));
  to_u64_lem = λ a. refl;
  from_pos_lem = λ n. refl;
  from_negsuc_lem = λ n h. refl;
  u64_add_lem = λ n x. refl;
  u64_sub_lem = λ n x h. refl;
  from_raw-to_raw = raw-inverse;
  to_raw-lt = raw-lt;
  to_le_digits_lem = λ x. refl;
  from_bytes_le_slice_lem = λ w. refl;
}

-- Hashes that are easy to compute; the deductions that rest on other crates deduce nothing.
instance abbrev pub hash_ops : HashOps
hash_ops = record {
  pedersen = λ a b. (a + 2 * b) % cairo_prime;
  hades_permutation = λ (a, b, c). (b, c, a);
  ec_op_deduction = λ read addr. ok none;
  keccak_deduction = λ read addr. ok none;
}
