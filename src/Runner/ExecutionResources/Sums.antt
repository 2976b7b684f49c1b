-- ===== src/Runner/ExecutionResources/Sums.antt =====
-- vm/src/vm/runners/cairo_runner.rs: subtraction of resources undoes addition.
use cairo_vm.Base.{
  ℕ, ◌+◌, ◌-◌, ◌<◌, ◌≡◌, refl, ap, ◌∙◌, Bool, true, false, [], ◌∷◌, if◌then◌else◌, word,
  wrapping_add, inl, inr, Bool-cases, arith,
}
use cairo_vm.Types.BuiltinName.{BuiltinName, same_name}
use cairo_vm.Runner.Returned.{wrapping_sub}
use cairo_vm.Runner.ExecutionResources.{
  Counters, ExecutionResources, change_entry, merge, add_assign, sub_assign,
}

-- The counter of a builtin, or 0.
unfoldable pub count : Counters → BuiltinName → ℕ
count [] n = 0
count ((k, v) ∷ m) n = if same_name k n then v else count m n

unfoldable pub has : Counters → BuiltinName → Bool
has [] n = false
has ((k, v) ∷ m) n = if same_name k n then true else has m n

-- The entries of a map have different names.
abbrev pub Distinct : Counters → Type 0
Distinct [] = Unit
Distinct ((k, _) ∷ m) = (has m k ≡ false) × Distinct m

same_name_trans :
    (a b c : BuiltinName) → same_name a b ≡ true → same_name b c ≡ true → same_name a c ≡ true
unfolding same_name
same_name_trans a b c h h' = ground arith

same_name_sym : (a b : BuiltinName) → same_name a b ≡ true → same_name b a ≡ true
unfolding same_name
same_name_sym a b h = ground arith

same_name_ne :
    (a b c : BuiltinName) → same_name a b ≡ true → same_name b c ≡ false → same_name a c ≡ false
unfolding same_name
same_name_ne a b c h h' = ground arith

same_name_apart :
    (a b c : BuiltinName) → same_name a b ≡ false → same_name b c ≡ true → same_name a c ≡ false
unfolding same_name
same_name_apart a b c h h' = ground arith

count-change_entry :
    (f : ℕ → ℕ) (m : Counters) (k n : BuiltinName)
    → same_name k n ≡ true
    → count (change_entry f m k) n ≡ f (count m n)
unfolding count change_entry
count-change_entry f [] k n h = rw (count, h) refl
count-change_entry f ((j, w) ∷ m) k n h = elim (Bool-cases (same_name j k)) [
  | inl same ↦ rw (change_entry, same, count, same_name_trans j k n same h) refl
  | inr other ↦
      rw (change_entry, other, count, same_name_apart j k n other h) (count-change_entry f m k n h)
]

count-change_entry_other :
    (f : ℕ → ℕ) (m : Counters) (k n : BuiltinName)
    → same_name k n ≡ false
    → count (change_entry f m k) n ≡ count m n
unfolding count change_entry
count-change_entry_other f [] k n h = rw (count, h) refl
count-change_entry_other f ((j, w) ∷ m) k n h = elim (Bool-cases (same_name j k)) [
  | inl same ↦ rw (change_entry, same, count, same_name_ne j k n same h) refl
  | inr other ↦ elim (Bool-cases (same_name j n)) [
    | inl here ↦ rw (change_entry, other, count, here) refl
    | inr elsewhere ↦
        rw (change_entry, other, count, elsewhere) (count-change_entry_other f m k n h)
  ]
]

-- A merge leaves the counters of other builtins, and applies the function once to each of its own.
count-merge_other :
    (f : ℕ → ℕ → ℕ) (m entries : Counters) (n : BuiltinName)
    → has entries n ≡ false
    → count (merge f m entries) n ≡ count m n
unfolding has merge
count-merge_other f m [] n h = refl
count-merge_other f m ((k, v) ∷ entries) n h = elim (Bool-cases (same_name k n)) [
  | inl same ↦ cc (rw (has, same) at h)
  | inr other ↦
      count-merge_other f (change_entry (λ w. f w v) m k) entries n (rw (has, other) at h)
      ∙ count-change_entry_other (λ w. f w v) m k n other
]

has-same :
    (m : Counters) (k n : BuiltinName) → same_name k n ≡ true → has m k ≡ false → has m n ≡ false
unfolding has
has-same [] k n same h = refl
has-same ((j, v) ∷ m) k n same h = elim (Bool-cases (same_name j k)) [
  | inl there ↦ cc (rw (has, there) at h)
  | inr other ↦
      rw (has, same_name_apart j k n other same) (has-same m k n same (rw (has, other) at h))
]

count-merge :
    (f : ℕ → ℕ → ℕ) (m entries : Counters) (n : BuiltinName)
    → Distinct entries
    → has entries n ≡ true
    → count (merge f m entries) n ≡ f (count m n) (count entries n)
unfolding has merge count
count-merge f m [] n distinct h = cc h
count-merge f m ((k, v) ∷ entries) n distinct h = elim (Bool-cases (same_name k n)) [
  | inl same ↦
      rw (count, same)
        (count-merge_other f (change_entry (λ w. f w v) m k) entries n
            (has-same entries k n same distinct.0)
          ∙ count-change_entry (λ w. f w v) m k n same)
  | inr other ↦
      rw (count, other)
        (count-merge f (change_entry (λ w. f w v) m k) entries n distinct.1 (rw (has, other) at h)
          ∙ ap (λ w. f w (count entries n)) (count-change_entry_other (λ w. f w v) m k n other))
]

pub record SameResources (a b : ExecutionResources) : Type 0 where
  pub steps : a.n_steps ≡ b.n_steps
  pub holes : a.n_memory_holes ≡ b.n_memory_holes
  pub counters :
      (n : BuiltinName) → count a.builtin_instance_counter n ≡ count b.builtin_instance_counter n

undo-count : (a b : ℕ) → a + b < word → wrapping_add a b - b ≡ a
undo-count a b h = omega arith

undo-steps : (a b : ℕ) → a + b < word → wrapping_sub (wrapping_add a b) b ≡ a
unfolding wrapping_sub
undo-steps a b h = omega arith

-- Resources that are added to others and taken away again leave the steps, the memory holes and the
-- counter of every builtin as they were, if the sums do not overflow. The entries of the map of
-- counters have different names.
pub sub_assign-add_assign :
    (a b : ExecutionResources)
    → Distinct b.builtin_instance_counter
    → a.n_steps + b.n_steps < word
    → a.n_memory_holes + b.n_memory_holes < word
    → ((n : BuiltinName)
        → count a.builtin_instance_counter n + count b.builtin_instance_counter n < word)
    → SameResources (sub_assign (add_assign a b) b) a
unfolding sub_assign add_assign
sub_assign-add_assign a b distinct steps holes counters =
    let xs = a.builtin_instance_counter in
    let ys = b.builtin_instance_counter in
    record {
      steps = undo-steps a.n_steps b.n_steps steps;
      holes = undo-steps a.n_memory_holes b.n_memory_holes holes;
      counters = λ n. elim (Bool-cases (has ys n)) [
        | inl there ↦
            count-merge (λ v w. v - w) (merge wrapping_add xs ys) ys n distinct there
            ∙ ap (λ x. x - count ys n) (count-merge wrapping_add xs ys n distinct there)
            ∙ undo-count (count xs n) (count ys n) (counters n)
        | inr absent ↦
            count-merge_other (λ v w. v - w) (merge wrapping_add xs ys) ys n absent
            ∙ count-merge_other wrapping_add xs ys n absent
      ];
    }
