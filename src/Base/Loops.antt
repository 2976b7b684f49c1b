-- ===== src/Base/Loops.antt =====
-- `while` loops, on fuel, with the rule that a measure below the fuel lets the loop end by its test.
-- `while_within` says when the fuel did not last.
use cairo_vm.Base.{
  ℕ, zero, suc, ◌<◌, ◌≡◌, Bool, true, false, arith, refl, ◌∙◌, Option, none, some, Bool-cases, inl,
  inr,
}

module _ {ℓ} {S : Type ℓ} (continues : S → Bool) (body : S → S) where
  unfoldable pub while_loop : ℕ → S → S
  while_loop zero s = s
  while_loop (suc fuel) s = elim (continues s) [ true ↦ while_loop fuel (body s) | false ↦ s ]

  pub while_loop-stops {κ} :
      (Inv : S → Type κ) (measure : S → ℕ)
      → ((s : S) → continues s ≡ true → Inv s → Inv (body s) × (measure (body s) < measure s))
      → (fuel : ℕ) (s : S) → Inv s
      → measure s < fuel
      → (continues (while_loop fuel s) ≡ false) × Inv (while_loop fuel s)
  unfolding while_loop
  while_loop-stops Inv measure keep zero s i h = absurd (omega arith)
  while_loop-stops Inv measure keep (suc fuel) s i h = elim (Bool-cases (continues s)) [
    | inl more ↦
        let kept = keep s more i in
        rw (while_loop, more)
          (while_loop-stops Inv measure keep fuel (body s) kept.0 (omega (arith, kept.1)))
    | inr done ↦ rw (while_loop, done) (done, i)
  ]

module _ {ℓ} {S : Type ℓ} (continues : S → Bool) (body : S → S) where
  -- A loop that must end by its test before the rounds are used up.
  unfoldable pub while_within : ℕ → S → Option S
  while_within zero s = none
  while_within (suc rounds) s = elim (continues s) [
    | true ↦ while_within rounds (body s)
    | false ↦ some s
  ]

  pub while_within-ends {κ} :
      (Inv : S → Type κ) (measure : S → ℕ)
      → ((s : S) → continues s ≡ true → Inv s → Inv (body s) × (measure (body s) < measure s))
      → (rounds : ℕ) (s : S) → Inv s
      → measure s < rounds
      → (t : S) × (while_within rounds s ≡ some t) × (continues t ≡ false) × Inv t
  unfolding while_within
  while_within-ends Inv measure keep zero s i h = absurd (omega arith)
  while_within-ends Inv measure keep (suc rounds) s i h = elim (Bool-cases (continues s)) [
    | inl more ↦
        let kept = keep s more i in
        rw (while_within, more)
          (while_within-ends Inv measure keep rounds (body s) kept.0 (omega (arith, kept.1)))
    | inr done ↦ rw (while_within, done) (s, refl, done, i)
  ]

-- A loop on part of the state, where test and body look at that part alone.
pub while_loop_projected {ℓ κ} :
    {S : Type ℓ} {T : Type κ} (part : S → T) (continues : S → Bool) (body : S → S)
    (continues' : T → Bool) (body' : T → T)
    → ((s : S) → continues' (part s) ≡ continues s)
    → ((s : S) → body' (part s) ≡ part (body s))
    → (fuel : ℕ) (s : S)
    → while_loop continues' body' fuel (part s) ≡ part (while_loop continues body fuel s)
unfolding while_loop
while_loop_projected part c b c' b' same step zero s = refl
while_loop_projected part c b c' b' same step (suc fuel) s = elim (Bool-cases (c s)) [
  | inl more ↦
      rw (while_loop, more, same s ∙ more, step s)
        (while_loop_projected part c b c' b' same step fuel (b s))
  | inr done ↦ rw (while_loop, done, same s ∙ done) refl
]
