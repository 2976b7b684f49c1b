-- ===== src/Base/Modular.antt =====
-- Floor division by a positive divisor, and congruence of integers.
use native.Mathlib.Decide.{dec_lt}
use cairo_vm.Base.{
  ℕ, zero, suc, ◌+◌, ◌-◌, ◌*◌, ◌/◌, ◌%◌, ◌≤◌, ◌<◌, ◌≡◌, refl, sym, ap, ◌∙◌, ◌⊎◌, inl, inr, arith,
}
use cairo_vm.Base.Int.{ℤ, pos, negsuc, pos_part, neg_part, ◌+ℤ◌}
use cairo_vm.Base.Ring.{
  ◌-ℤ◌, ◌*ℤ◌, ext, +ℤ_parts, -ℤ_parts, pos_part-*ℤ, neg_part-*ℤ, product_parts, Floor, floor_by,
  div_mod_floor, mod_floor, +ℤ_assoc, +ℤ_comm, +ℤ-*ℤ, -ℤ-*ℤ, *ℤ_comm, *ℤ_assoc,
}

pub ruleset sums = (arith, +ℤ_parts, -ℤ_parts, ext)

pub floor_by_lem :
    (a : ℤ) (d : ℕ)
    → 0 < d
    → (k : ℕ) × ((floor_by a d).r ≡ pos k) × (k < d) × (a ≡ (floor_by a d).q *ℤ pos d +ℤ pos k)
unfolding floor_by
floor_by_lem (pos n) d h = (
  n % d,
  refl,
  omega arith,
  ext _ _ (omega (arith, simp product_parts at (+ℤ_parts (pos (n / d) *ℤ pos d) (pos (n % d))))),
)
floor_by_lem (negsuc n) d h = (
  d - 1 - n % d,
  refl,
  omega arith,
  ext _ _ (
      omega
        (arith, simp product_parts at (+ℤ_parts (negsuc (n / d) *ℤ pos d) (pos (d - 1 - n % d))))),
)

total : (a b : ℤ) → ((j : ℕ) × (a ≡ b +ℤ pos j)) ⊎ ((j : ℕ) × (b ≡ a +ℤ pos j))
total a b = elim (dec_lt (pos_part a + neg_part b) (pos_part b + neg_part a)) [
  | yes h ↦ inr (pos_part b + neg_part a - (pos_part a + neg_part b), omega sums)
  | no h ↦ inl (pos_part a + neg_part b - (pos_part b + neg_part a), omega sums)
]

no_multiple : (j d k k' : ℕ) → k' < d → j * d + k ≡ k' → k ≡ k'
no_multiple zero d k k' h e = omega arith
no_multiple (suc j) d k k' h e = absurd (omega arith)

above_remainder :
    (q : ℤ) (j d k k' : ℕ) → k' < d → (q +ℤ pos j) *ℤ pos d +ℤ pos k ≡ q *ℤ pos d +ℤ pos k' → k ≡ k'
above_remainder q j d k k' h e =
    let e' : q *ℤ pos d +ℤ pos j *ℤ pos d +ℤ pos k ≡ q *ℤ pos d +ℤ pos k' =
      rw (+ℤ-*ℤ q (pos j) (pos d)) at e in
    no_multiple j d k k' h (
      omega (
        arith,
        ap pos_part e',
        ap neg_part e',
        +ℤ_parts,
        pos_part-*ℤ (pos j) (pos d),
        neg_part-*ℤ (pos j) (pos d),
      ))

pub remainder_unique :
    (q q' : ℤ) (d k k' : ℕ) → k < d → k' < d → q *ℤ pos d +ℤ pos k ≡ q' *ℤ pos d +ℤ pos k' → k ≡ k'
remainder_unique q q' d k k' h h' e = elim (total q q') [
  | inl m ↦ above_remainder q' m.0 d k k' h' (rw (m.1) at e)
  | inr m ↦ sym (above_remainder q m.0 d k' k h (sym (rw (m.1) at e)))
]

-- a and b differ by a multiple of d.
pub record Congruent (d : ℕ) (a b : ℤ) : Type 0 where
  pub times : ℤ
  pub differ : a ≡ b +ℤ times *ℤ pos d

pub Congruent-sym : {d : ℕ} {a b : ℤ} → Congruent d a b → Congruent d b a
Congruent-sym {d} {a} {b} h =
    let t = h.times in
    record {
      times = pos 0 -ℤ t;
      differ =
          rw (-ℤ-*ℤ, h.differ)
            (omega (
              sums,
              simp product_parts at (-ℤ_parts (pos 0 *ℤ pos d) (t *ℤ pos d)),
              simp product_parts at (+ℤ_parts b (t *ℤ pos d)),
              product_parts,
            ));
    }

pub Congruent-trans : {d : ℕ} {a b c : ℤ} → Congruent d a b → Congruent d b c → Congruent d a c
Congruent-trans {d} {a} {b} {c} h k = record {
  times = k.times +ℤ h.times;
  differ = rw (+ℤ-*ℤ, h.differ, k.differ) (+ℤ_assoc _ _ _);
}

pub *ℤ-+ℤ : (a b c : ℤ) → a *ℤ (b +ℤ c) ≡ a *ℤ b +ℤ a *ℤ c
*ℤ-+ℤ a b c = rw (*ℤ_comm a (b +ℤ c), +ℤ-*ℤ, *ℤ_comm b a, *ℤ_comm c a) refl

pub Congruent-mul : {d : ℕ} {a b : ℤ} (c : ℤ) → Congruent d a b → Congruent d (c *ℤ a) (c *ℤ b)
Congruent-mul {d} {a} {b} c h = record {
  times = c *ℤ h.times;
  differ = rw (h.differ, *ℤ_assoc) (*ℤ-+ℤ c b (h.times *ℤ pos d));
}

-- The residue: below the divisor, congruent, and the same for congruent numbers.
pub mod_floor_lem :
    (a : ℤ) (d : ℕ)
    → 0 < d
    → (k : ℕ) × (mod_floor a (pos d) ≡ pos k) × (k < d) × Congruent d a (pos k)
unfolding mod_floor div_mod_floor
mod_floor_lem a d h =
    let f = floor_by_lem a d h in
    (f.0, f.1, f.2, record { times = (floor_by a d).q; differ = f.3 ∙ +ℤ_comm _ _ })

no_quotient : (d k : ℕ) → pos 0 *ℤ pos d +ℤ pos k ≡ pos k
no_quotient d k = ext _ _ (omega (arith, simp product_parts at (+ℤ_parts (pos 0 *ℤ pos d) (pos k))))

pub Congruent-mod_floor :
    {d : ℕ} {a b : ℤ} → 0 < d → Congruent d a b → mod_floor a (pos d) ≡ mod_floor b (pos d)
Congruent-mod_floor {d} {a} {b} h c =
    let f = mod_floor_lem a d h in
    let g = mod_floor_lem b d h in
    let e = Congruent-trans (Congruent-sym f.3) (Congruent-trans c g.3) in
    rw (f.1, g.1)
      (ap pos (
        remainder_unique (pos 0) e.times d f.0 g.0 f.2 g.2
          (no_quotient d f.0 ∙ (e.differ ∙ +ℤ_comm _ _))))
