-- ===== src/Math/Sqrt.antt =====
-- vm/src/math_utils/mod.rs: the integer square root by Newton's iteration.
use cairo_vm.Base.{
  ◌+◌, ◌-◌, ◌*◌, ◌/◌, ◌≤◌, ◌<◌, ℕ, zero, suc, ◌≡◌, refl, ap, Option, none, some, Bool, true, false,
  ◌&&◌, arith, ltb, leb, if◌then◌else◌, ltb→lt, not-ltb→le,
}
use native.Mathlib.Decide.{dec_lt}
use native.Mathlib.Nat.{div_self, le-div_iff_mul-le}
use cairo_vm.Base.Loops.{while_within, while_within-ends}
use cairo_vm.Base.Result.{Result, ok, err}
use cairo_vm.Types.Errors.{MathError}

pub record Guess : Type 0 where
  pub x : ℕ
  pub y : ℕ

abbrev pub guess : ℕ → ℕ → Guess
guess x y = record { x = x; y = y }

-- One round. The divisor is never 0: `refine-IsAbove` keeps it positive.
pub refine : ℕ → Guess → Guess
refine n g = guess g.y ((g.y + n / g.y) / 2)

pub improves : Guess → Bool
improves g = ltb g.y g.x

-- The loop, in a number of rounds that the source does not bound. Each round makes `x` smaller.
unfoldable pub newton : (rounds : ℕ) → ℕ → Option Guess
unfolding refine improves
newton rounds n = while_within improves (refine n) rounds (guess n ((n + 1) / 2))

pub checked_root : ℕ → ℕ → Result MathError ℕ
checked_root n x =
    if leb (x * x) n && ltb n ((x + 1) * (x + 1))
    then ok x
    else err (MathError.failed_to_get_sqrt n)

-- `none` says that the loop has not ended in the rounds.
unfoldable pub isqrt : (rounds : ℕ) → ℕ → Option (Result MathError ℕ)
unfolding newton checked_root
isqrt rounds n = elim (newton rounds n) [ none ↦ none | some g ↦ some (checked_root n g.x) ]

square_gap : (x t : ℕ) → 4 * (x * t) ≤ (x + t) * (x + t)
square_gap x t = elim (dec_lt x t) [
  | yes h ↦ ordered x t (omega arith)
  | no h ↦ omega (arith, ordered t x (omega arith))
]
  where
    apart : (a d : ℕ) → 4 * (a * (a + d)) ≤ (a + (a + d)) * (a + (a + d))
    apart a d = omega arith

    ordered : (a b : ℕ) → a ≤ b → 4 * (a * b) ≤ (a + b) * (a + b)
    ordered a b h = let e : a + (b - a) ≡ b = omega arith in rw e at (apart a (b - a))

square_mono : (a b : ℕ) → a ≤ b → a * a ≤ b * b
square_mono a b h = grind arith

-- The mean of x and n / x, rounded down twice, is not below the root.
mean_above : (x k n : ℕ) → n < x * (k + 1) → n < ((x + k) / 2 + 1) * ((x + k) / 2 + 1)
mean_above x k n h =
    let m : ℕ = (x + k) / 2 + 1 in
    let wide : (x + (k + 1)) * (x + (k + 1)) ≤ (2 * m) * (2 * m) =
      square_mono (x + (k + 1)) (2 * m) (omega arith) in
    omega (arith, square_gap x (k + 1), wide)

record IsAbove (n : ℕ) (g : Guess) : Type 0 where
  positive : 0 < g.y
  above : n < (g.x + 1) * (g.x + 1)
  mean : g.y ≡ (g.x + n / g.x) / 2

below_next_multiple : (n d : ℕ) → 0 < d → n < d * (n / d + 1)
below_next_multiple n d h = grind arith

half_mean_pos : (n d : ℕ) → 0 < n → 0 < d → 0 < (d + n / d) / 2
half_mean_pos n d h p = grind arith

refine-IsAbove :
    (n : ℕ)
    → 0 < n
    → (g : Guess) → improves g ≡ true
    → IsAbove n g
    → IsAbove n (refine n g) × ((refine n g).x < g.x)
unfolding refine improves
refine-IsAbove n h g more i =
    let less : g.y < g.x = ltb→lt g.y g.x more in
    (
      record {
        positive = half_mean_pos n g.y h i.positive;
        above = rw (i.mean) (mean_above g.x (n / g.x) n (below_next_multiple n g.x (omega arith)));
        mean = refl;
      },
      less,
    )

start-IsAbove : (n : ℕ) → 0 < n → IsAbove n (guess n ((n + 1) / 2))
start-IsAbove n h = record {
  positive = omega arith;
  above = omega arith;
  mean = rw (div_self h) refl;
}

-- Once the iteration stops, x is at most n / x.
stopped : (n : ℕ) (g : Guess) → improves g ≡ false → IsAbove n g → g.x * g.x ≤ n
unfolding improves
stopped n g e i = elim (dec_lt 0 g.x) [
  | yes p ↦ (le-div_iff_mul-le p).0 (omega (arith, i.mean, not-ltb→le g.y g.x e))
  | no p ↦ let z : g.x ≡ 0 = omega arith in rw z (omega arith)
]

abbrev IsRoot : ℕ → ℕ → Type 0
IsRoot n x = (x * x ≤ n) × (n < (x + 1) * (x + 1))

newton_zero : (rounds : ℕ) → 0 < rounds → newton rounds 0 ≡ some (guess 0 0)
unfolding newton while_within
newton_zero zero h = absurd (omega arith)
newton_zero (suc rounds) h = refl

newton_pos :
    (rounds n : ℕ) → 0 < n → n < rounds → (g : Guess) × (newton rounds n ≡ some g) × IsRoot n g.x
unfolding newton
newton_pos rounds n h enough =
    let (g, e, done, above) =
      while_within-ends improves (refine n) (IsAbove n) (λ g. g.x) (refine-IsAbove n h) rounds
        (guess n ((n + 1) / 2)) (start-IsAbove n h) enough in
    (g, e, (stopped n g done above, above.above))

newton-IsRoot :
    (rounds n : ℕ) → n < rounds → (g : Guess) × (newton rounds n ≡ some g) × IsRoot n g.x
newton-IsRoot rounds n enough = elim (dec_lt 0 n) [
  | yes p ↦ newton_pos rounds n p enough
  | no p ↦
      let z : n ≡ 0 = omega arith in
      (guess 0 0, rw z (newton_zero rounds (omega arith)), (omega arith, omega arith))
]

checked_root-IsRoot : (n x : ℕ) → IsRoot n x → checked_root n x ≡ ok x
unfolding checked_root
checked_root-IsRoot n x h = ground (arith, h.0, h.1)

-- The loop of `isqrt` ends on every number n in at most n + 1 tests of its condition, and `isqrt`
-- then succeeds with the root rounded down: x * x <= n < (x + 1) * (x + 1).
pub isqrt_lem :
    (rounds n : ℕ)
    → n < rounds
    → (x : ℕ) × (isqrt rounds n ≡ some (ok x)) × (x * x ≤ n) × (n < (x + 1) * (x + 1))
unfolding isqrt
isqrt_lem rounds n enough =
    let (g, e, root) = newton-IsRoot rounds n enough in
    (g.x, rw (isqrt, e) (ap (λ r. some r) (checked_root-IsRoot n g.x root)), root.0, root.1)
