-- ===== src/Types/Felt.antt =====
-- What the program uses of `Felt252`, the field element of the crate starknet-types-core. A felt
-- is written as its canonical representative, a number below the prime (`Felt252::to_biguint`).
-- The operations of the crate are a parameter; the laws are what its documentation says of them.
use cairo_vm.Base.{
  ℕ, ◌+◌, ◌-◌, ◌*◌, ◌/◌, ◌%◌, ◌^◌, ◌<◌, ◌≡◌, Option, none, some, ltb, if◌then◌else◌, word,
}
use cairo_vm.Base.Int.{ℤ, pos, negsuc}

-- `CAIRO_PRIME`, given in the source by its hexadecimal digits `PRIME_STR`.
abbrev pub cairo_prime : ℕ
cairo_prime = 0x800000000000011000000000000000000000000000000000000000000000001

abbrev pub Felt : Type 0
Felt = ℕ

abbrev pub IsFelt : Felt → Type 0
IsFelt x = x < cairo_prime

-- Four 64-bit words, as `[u64; 4]`.
pub record Words : Type 0 where
  pub w0 : ℕ
  pub w1 : ℕ
  pub w2 : ℕ
  pub w3 : ℕ

abbrev pub words : ℕ → ℕ → ℕ → ℕ → Words
words a b c d = record { w0 = a; w1 = b; w2 = c; w3 = d }

pub record FeltOps : Type 0 where
  pub add : Felt → Felt → Felt
  pub sub : Felt → Felt → Felt
  pub mul : Felt → Felt → Felt
  -- Division in the field by a divisor that is not zero.
  pub field_div : Felt → Felt → Felt
  pub to_u64 : Felt → Option ℕ
  pub from_i128 : ℤ → Felt
  -- `u64 + &Felt252` and `u64 - &Felt252`: the field operation, if its result fits a `u64`.
  pub u64_add : ℕ → Felt → Option ℕ
  pub u64_sub : ℕ → Felt → Option ℕ
  -- The internal words. The top bits are clear, since the field has 252 bits.
  pub to_raw : Felt → Words
  pub from_raw : Words → Felt
  -- The digits of the representative in base 2^64, least first, and a felt from 32 bytes, which
  -- are given here as the four words that they are copied from.
  pub to_le_digits : Felt → Words
  pub from_bytes_le_slice : Words → Felt
  pub add_lem : (a b : Felt) → add a b ≡ (a + b) % cairo_prime
  pub sub_lem : (a b : Felt) → b < cairo_prime → sub a b ≡ (a + (cairo_prime - b)) % cairo_prime
  pub mul_lem : (a b : Felt) → mul a b ≡ (a * b) % cairo_prime
  pub field_div-IsFelt : (a b : Felt) → IsFelt (field_div a b)
  pub to_u64_lem : (a : Felt) → to_u64 a ≡ (if ltb a word then some a else none)
  pub from_pos_lem : (n : ℕ) → from_i128 (pos n) ≡ n % cairo_prime
  pub from_negsuc_lem : (n : ℕ) → n < word → from_i128 (negsuc n) ≡ cairo_prime - (n + 1)
  pub u64_add_lem :
      (n : ℕ) (x : Felt)
      → u64_add n x
        ≡ (if ltb ((n + x) % cairo_prime) word then some ((n + x) % cairo_prime) else none)
  pub u64_sub_lem :
      (n : ℕ) (x : Felt)
      → x < cairo_prime
      → u64_sub n x ≡ (
          if ltb ((n + (cairo_prime - x)) % cairo_prime) word
          then some ((n + (cairo_prime - x)) % cairo_prime)
          else none)
  pub from_raw-to_raw : (x : Felt) → IsFelt x → from_raw (to_raw x) ≡ x
  pub to_raw-lt : (x : Felt) → IsFelt x → (to_raw x).w0 < 2 ^ 60
  pub to_le_digits_lem :
      (x : Felt)
      → to_le_digits x ≡ record {
        w0 = x % word;
        w1 = x / word % word;
        w2 = x / word / word % word;
        w3 = x / word / word / word % word;
      }
  pub from_bytes_le_slice_lem :
      (w : Words)
      → from_bytes_le_slice w ≡ (w.w0 + word * (w.w1 + word * (w.w2 + word * w.w3))) % cairo_prime
