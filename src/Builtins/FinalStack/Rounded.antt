-- ===== src/Builtins/FinalStack/Rounded.antt =====
-- vm/src/vm/runners/builtin_runner/mod.rs: what a stop pointer counts is the size of the segment,
-- rounded up to whole instances.
use cairo_vm.Base.{
  ℕ, ◌+◌, ◌-◌, ◌*◌, ◌≤◌, ◌<◌, ◌≡◌, refl, sym, ap, ◌∙◌, subst, none, some, true, false, arith, ltb,
  Option-cases, inl, inr, le→not-ltb, lt→ltb,
}
use native.Mathlib.Decide.{dec_lt}
use cairo_vm.Base.Result.{ok, err, ok-injective}
use cairo_vm.Types.Errors.{MemoryError, RunnerError}
use cairo_vm.Segments.{MemorySegmentManager, get_segment_used_size}
use cairo_vm.Builtins.Runner.{
  BuiltinRunner, bitwise, ec_op, hash, output, range_check, keccak, signature, poseidon,
  segment_arena, mod_builtin, base,
}
use cairo_vm.Builtins.Usage.{
  cells_per_instance, get_used_cells, get_used_instances, used_at_stop, size_of_segment,
  after_initial, preloaded, div_ceil,
}

-- A stop pointer counts whole instances, and single cells for the output.
abbrev pub unit_size : BuiltinRunner → ℕ
unit_size (output _) = 1
unit_size b = cells_per_instance b

-- The segment arena starts with one instance in its segment.
abbrev pub least_size : BuiltinRunner → ℕ
least_size (segment_arena _ _) = 3
least_size _ = 0

-- The least number of cells in whole instances that holds the used part of the segment.
pub record IsRoundedUp (b : BuiltinRunner) (s : MemorySegmentManager) (n : ℕ) : Type 0 where
  pub used : ℕ
  pub has_used : get_segment_used_size s (base b) ≡ some used
  pub started : least_size b ≤ used
  pub instances : ℕ
  pub whole : n ≡ instances * unit_size b
  pub covers : used ≤ n
  pub least : n < used + unit_size b

-- The number that the code computes.
abbrev count_of : BuiltinRunner → ℕ → ℕ
count_of (output _) u = u
count_of (range_check _ _) u = (u + 0) * 1
count_of (segment_arena _ _) u = (div_ceil (u - 3) 3 + 1) * 3
count_of b u = (div_ceil u (cells_per_instance b) + 0) * cells_per_instance b

used_at_stop-count_of :
    (b : BuiltinRunner) (s : MemorySegmentManager) (u : ℕ)
    → get_segment_used_size s (base b) ≡ some u
    → least_size b ≤ u
    → used_at_stop b s ≡ ok (count_of b u)
unfolding used_at_stop get_used_instances get_used_cells size_of_segment after_initial preloaded
    base cells_per_instance
used_at_stop-count_of (bitwise c) s u h e = rw h refl
used_at_stop-count_of (ec_op c) s u h e = rw h refl
used_at_stop-count_of (hash c _) s u h e = rw h refl
used_at_stop-count_of (output c) s u h e = rw h refl
used_at_stop-count_of (range_check c _) s u h e = rw h refl
used_at_stop-count_of (keccak c) s u h e = rw h refl
used_at_stop-count_of (signature c) s u h e = rw h refl
used_at_stop-count_of (poseidon c _) s u h e = rw h refl
used_at_stop-count_of (segment_arena c _) s u h e =
    let long : ltb u 3 ≡ false = le→not-ltb u 3 e in rw (h, long) refl
used_at_stop-count_of (mod_builtin c _) s u h e = rw h refl

-- The numbers of instances are those of the code; the bounds are arithmetic.
instances_of : BuiltinRunner → ℕ → ℕ
instances_of (output _) u = u
instances_of (range_check _ _) u = u
instances_of (segment_arena _ _) u = div_ceil (u - 3) 3 + 1
instances_of b u = div_ceil u (cells_per_instance b)

count_of_bounds :
    (b : BuiltinRunner) (u : ℕ)
    → least_size b ≤ u
    → (count_of b u ≡ instances_of b u * unit_size b)
      × (u ≤ count_of b u)
      × (count_of b u < u + unit_size b)
unfolding instances_of cells_per_instance
count_of_bounds (bitwise c) u h = (omega arith, omega (arith, h), omega (arith, h))
count_of_bounds (ec_op c) u h = (omega arith, omega (arith, h), omega (arith, h))
count_of_bounds (hash c _) u h = (omega arith, omega (arith, h), omega (arith, h))
count_of_bounds (output c) u h = (omega arith, omega (arith, h), omega (arith, h))
count_of_bounds (range_check c _) u h = (omega arith, omega (arith, h), omega (arith, h))
count_of_bounds (keccak c) u h = (omega arith, omega (arith, h), omega (arith, h))
count_of_bounds (signature c) u h = (omega arith, omega (arith, h), omega (arith, h))
count_of_bounds (poseidon c _) u h = (omega arith, omega (arith, h), omega (arith, h))
count_of_bounds (segment_arena c _) u h = (omega arith, omega (arith, h), omega (arith, h))
count_of_bounds (mod_builtin c _) u h = (omega arith, omega (arith, h), omega (arith, h))

count_of_unique :
    (b : BuiltinRunner) (u i n : ℕ)
    → least_size b ≤ u
    → n ≡ i * unit_size b
    → u ≤ n
    → n < u + unit_size b
    → n ≡ count_of b u
unfolding cells_per_instance
count_of_unique (bitwise c) u i n h whole covers least = omega (arith, h, whole, covers, least)
count_of_unique (ec_op c) u i n h whole covers least = omega (arith, h, whole, covers, least)
count_of_unique (hash c _) u i n h whole covers least = omega (arith, h, whole, covers, least)
count_of_unique (output c) u i n h whole covers least = omega (arith, h, whole, covers, least)
count_of_unique (range_check c _) u i n h whole covers least =
    omega (arith, h, whole, covers, least)
count_of_unique (keccak c) u i n h whole covers least = omega (arith, h, whole, covers, least)
count_of_unique (signature c) u i n h whole covers least = omega (arith, h, whole, covers, least)
count_of_unique (poseidon c _) u i n h whole covers least = omega (arith, h, whole, covers, least)
count_of_unique (segment_arena c _) u i n h whole covers least =
    omega (arith, h, whole, covers, least)
count_of_unique (mod_builtin c _) u i n h whole covers least =
    omega (arith, h, whole, covers, least)

used_at_stop-missing :
    (b : BuiltinRunner) (s : MemorySegmentManager)
    → get_segment_used_size s (base b) ≡ none
    → used_at_stop b s ≡ err (RunnerError.memory MemoryError.missing_segment_used_sizes)
unfolding used_at_stop get_used_instances get_used_cells size_of_segment base
used_at_stop-missing (bitwise c) s h = rw h refl
used_at_stop-missing (ec_op c) s h = rw h refl
used_at_stop-missing (hash c _) s h = rw h refl
used_at_stop-missing (output c) s h = rw h refl
used_at_stop-missing (range_check c _) s h = rw h refl
used_at_stop-missing (keccak c) s h = rw h refl
used_at_stop-missing (signature c) s h = rw h refl
used_at_stop-missing (poseidon c _) s h = rw h refl
used_at_stop-missing (segment_arena c _) s h = rw h refl
used_at_stop-missing (mod_builtin c _) s h = rw h refl

used_at_stop-short :
    (b : BuiltinRunner) (s : MemorySegmentManager) (u : ℕ)
    → get_segment_used_size s (base b) ≡ some u
    → u < least_size b
    → used_at_stop b s ≡ err (RunnerError.memory MemoryError.invalid_used_size_segment_arena)
unfolding used_at_stop get_used_instances get_used_cells size_of_segment after_initial base
used_at_stop-short (bitwise c) s u h short = absurd (omega (arith, short))
used_at_stop-short (ec_op c) s u h short = absurd (omega (arith, short))
used_at_stop-short (hash c _) s u h short = absurd (omega (arith, short))
used_at_stop-short (output c) s u h short = absurd (omega (arith, short))
used_at_stop-short (range_check c _) s u h short = absurd (omega (arith, short))
used_at_stop-short (keccak c) s u h short = absurd (omega (arith, short))
used_at_stop-short (signature c) s u h short = absurd (omega (arith, short))
used_at_stop-short (poseidon c _) s u h short = absurd (omega (arith, short))
used_at_stop-short (segment_arena c _) s u h short =
    let test : ltb u 3 ≡ true = lt→ltb u 3 short in rw (h, test) refl
used_at_stop-short (mod_builtin c _) s u h short = absurd (omega (arith, short))

used_at_stop-size :
    (b : BuiltinRunner) (s : MemorySegmentManager) (n : ℕ)
    → used_at_stop b s ≡ ok n
    → (u : ℕ) × (get_segment_used_size s (base b) ≡ some u) × (least_size b ≤ u)
used_at_stop-size b s n h = elim (Option-cases (get_segment_used_size s (base b))) [
  | inl missing ↦ cc (h, used_at_stop-missing b s missing)
  | inr found ↦ elim (dec_lt found.0 (least_size b)) [
    | yes short ↦ cc (h, used_at_stop-short b s found.0 found.1 short)
    | no long ↦ (found.0, found.1, omega arith)
  ]
]

pub used_at_stop-IsRoundedUp :
    (b : BuiltinRunner) (s : MemorySegmentManager) (n : ℕ)
    → used_at_stop b s ≡ ok n
    → IsRoundedUp b s n
used_at_stop-IsRoundedUp b s n h =
    let (u, has, started) = used_at_stop-size b s n h in
    let same : count_of b u ≡ n =
      ok-injective (sym (used_at_stop-count_of b s u has started) ∙ h) in
    let bounds = count_of_bounds b u started in
    subst (IsRoundedUp b s) same (record {
      used = u;
      has_used = has;
      started = started;
      instances = instances_of b u;
      whole = bounds.0;
      covers = bounds.1;
      least = bounds.2;
    })

pub IsRoundedUp-used_at_stop :
    (b : BuiltinRunner) (s : MemorySegmentManager) (n : ℕ)
    → IsRoundedUp b s n
    → used_at_stop b s ≡ ok n
IsRoundedUp-used_at_stop b s n r =
    used_at_stop-count_of b s r.used r.has_used r.started
    ∙ ap (λ k. ok k)
        (sym (count_of_unique b r.used r.instances n r.started r.whole r.covers r.least))
