-- ===== src/Builtins/Security/Inputs.antt =====
-- vm/src/vm/runners/builtin_runner/mod.rs: what the security checks guarantee of the input cells.
use cairo_vm.Base.{
  ℕ, zero, suc, ◌+◌, ◌*◌, ◌/◌, ◌≤◌, ◌<◌, ◌≡◌, ◌≢◌, refl, Bool, true, false, some, List, [], ◌∷◌,
  ◌++◌, arith, ltb, ◌==◌, if◌then◌else◌, length, get_elem?,
}
use cairo_vm.Base.Result.{Result, ok, err, bind-ok-elim}
use cairo_vm.Types.Felt.{FeltOps}
use native.Mathlib.Nat.{le-div_iff_mul-le, le_refl, le_trans}
use cairo_vm.Types.BuiltinName.{BuiltinName}
use cairo_vm.Types.Errors.{VirtualMachineError}
use cairo_vm.Memory.Store.{Segment}
use cairo_vm.Builtins.Runner.{
  BuiltinRunner, bitwise, ec_op, hash, output, range_check, keccak, signature, poseidon,
  segment_arena, mod_builtin, base, name, HashOps,
}
use cairo_vm.Builtins.Usage.{cells_per_instance, n_input_cells}
use cairo_vm.Vm.State.{VirtualMachine}
use cairo_vm.Builtins.Security.{
  is_set, count_set, unset_from, unset_cells, instances, guard_empty, check_instances,
  check_segment, run_security_checks,
}

nil_of_append : (xs ys : List ℕ) → (xs ++ ys) ≡ [] → (xs ≡ []) × (ys ≡ [])
nil_of_append [] ys h = (refl, h)
nil_of_append (x ∷ xs) ys h = cc h

if_set :
    (b : Bool) (rest : List ℕ) (start : ℕ)
    → (if b then rest else start ∷ rest) ≡ []
    → (b ≡ true) × (rest ≡ [])
if_set true rest start h = (refl, h)
if_set false rest start h = cc h

unset_from-cons :
    (segment : Segment) (start n : ℕ)
    → unset_from segment start (suc n) ≡ []
    → (is_set segment start ≡ true) × (unset_from segment (suc start) n ≡ [])
unfolding unset_from
unset_from-cons segment start n h =
    if_set (is_set segment start) (unset_from segment (suc start) n) start h

unset_from-nil :
    (segment : Segment) (start n j : ℕ)
    → unset_from segment start n ≡ []
    → j < n
    → is_set segment (start + j) ≡ true
unfolding unset_from
unset_from-nil segment start zero j h lt = elim lt [ ]
unset_from-nil segment start (suc n) zero h lt =
    let e : start + 0 ≡ start = omega arith in rw e (unset_from-cons segment start n h).0
unset_from-nil segment start (suc n) (suc j) h lt =
    let e : start + suc j ≡ suc start + j = omega arith in
    rw e
      (unset_from-nil segment (suc start) n j (unset_from-cons segment start n h).1 (omega arith))

unset_cells-nil :
    (segment : Segment) (cells first width i n k j : ℕ)
    → unset_cells segment cells first width i n ≡ []
    → k < n
    → j < width
    → is_set segment (cells * (i + k) + first + j) ≡ true
unfolding unset_cells
unset_cells-nil segment cells first width i zero k j h lt w = elim lt [ ]
unset_cells-nil segment cells first width i (suc n) zero j h lt w =
    let e : i + 0 ≡ i = omega arith in
    rw e (unset_from-nil segment (cells * i + first) width j (nil_of_append _ _ h).0 w)
unset_cells-nil segment cells first width i (suc n) (suc k) j h lt w =
    let e : i + suc k ≡ suc i + k = omega arith in
    rw e (
      unset_cells-nil segment cells first width (suc i) n k j (nil_of_append _ _ h).1 (omega arith)
        w)

guard_empty-nil :
    (b : BuiltinRunner) (os : List ℕ) {t : Unit {0}} → guard_empty b os ≡ ok t → os ≡ []
unfolding guard_empty
guard_empty-nil b [] h = refl
guard_empty-nil b (o ∷ os) h = cc h

if-err_else {ℓ} :
    {E : Type 0} {A : Type ℓ} (b : Bool) (e : E) (r : Result E A) {a : A}
    → (if b then err e else r) ≡ ok a
    → r ≡ ok a
if-err_else true e r h = cc h
if-err_else false e r h = h

-- A cell that is set is counted, and lies in an instance of the segment.
count_set-pos :
    (segment : Segment) (k : ℕ)
    → is_set segment k ≡ true
    → (0 < count_set segment) × (k < length segment)
unfolding is_set count_set
count_set-pos [] k h = cc h
count_set-pos (c ∷ cs) zero h = ground arith
count_set-pos (c ∷ cs) (suc k) h = ground (arith, count_set-pos cs k h)

div_step : (k n d : ℕ) → 0 < d → k ≤ n → k / d < n / d + 1
div_step k n d p h =
    omega (arith, (le-div_iff_mul-le p).1 (le_trans ((le-div_iff_mul-le p).0 (le_refl (k / d))) h))

module _ ⦃F : FeltOps⦄ ⦃H : HashOps⦄ where
  check_instances-is_set :
      (b b' : BuiltinRunner) (vm : VirtualMachine) (segment : Segment) (n i j : ℕ)
      → check_instances b vm segment n ≡ ok b'
      → i < n
      → j < n_input_cells b
      → is_set segment (cells_per_instance b * i + j) ≡ true
  unfolding check_instances
  check_instances-is_set b b' vm segment n i j h lt w =
      bind-ok-elim
        (guard_empty b (unset_cells segment (cells_per_instance b) 0 (n_input_cells b) 0 n)) _
        (if-err_else (ltb (count_set segment / n_input_cells b) n) _ _ h)
        λ t e h₁.
          let o : cells_per_instance b * i + j ≡ cells_per_instance b * (0 + i) + 0 + j =
            omega arith in
          rw o (
            unset_cells-nil segment (cells_per_instance b) 0 (n_input_cells b) 0 n i j
              (guard_empty-nil b _ e) lt w)

  check_segment-is_set :
      (b b' : BuiltinRunner) (vm : VirtualMachine) (segment : Segment) (k j : ℕ)
      → 0 < cells_per_instance b
      → check_segment b vm (some segment) ≡ ok b'
      → is_set segment k ≡ true
      → j < n_input_cells b
      → is_set segment (cells_per_instance b * (k / cells_per_instance b) + j) ≡ true
  unfolding check_segment instances
  check_segment-is_set b b' vm [] k j cells h here w =
      absurd (omega (arith, (count_set-pos [] k here).1))
  check_segment-is_set b b' vm (c ∷ cs) k j cells h here w =
      let counted = count_set-pos (c ∷ cs) k here in
      let some_set : (count_set (c ∷ cs) == 0) ≡ false = ground (arith, counted.0) in
      check_instances-is_set b b' vm (c ∷ cs) (length cs / cells_per_instance b + 1)
        (k / cells_per_instance b) j (rw some_set at h)
        (div_step k (length cs) (cells_per_instance b) cells (omega (arith, counted.1))) w

  cells_per_instance-pos :
      (b : BuiltinRunner) {j : ℕ} → j < n_input_cells b → 0 < cells_per_instance b
  unfolding n_input_cells cells_per_instance
  cells_per_instance-pos (bitwise _) h = omega arith
  cells_per_instance-pos (ec_op _) h = omega arith
  cells_per_instance-pos (hash _ _) h = omega arith
  cells_per_instance-pos (range_check _ _) h = omega arith
  cells_per_instance-pos (output _) h = elim h [ ]
  cells_per_instance-pos (keccak _) h = omega arith
  cells_per_instance-pos (signature _) h = omega arith
  cells_per_instance-pos (poseidon _ _) h = omega arith
  cells_per_instance-pos (segment_arena _ _) h = omega arith
  cells_per_instance-pos (mod_builtin _ _) h = omega arith

  run_security_checks-check_segment :
      (mod_checks : BuiltinRunner → VirtualMachine → Result VirtualMachineError (Unit {0}))
      (b b' : BuiltinRunner) (vm : VirtualMachine) (j : ℕ)
      → run_security_checks mod_checks b vm ≡ ok b'
      → j < n_input_cells b
      → name b ≢ BuiltinName.segment_arena
      → check_segment b vm (get_elem? vm.segments.memory.data_segments (base b)) ≡ ok b'
  unfolding run_security_checks name base
  run_security_checks-check_segment mc (output _) b' vm j h w arena = elim w [ ]
  run_security_checks-check_segment mc (segment_arena _ _) b' vm j h w arena = absurd (arena refl)
  run_security_checks-check_segment mc (mod_builtin c t) b' vm j h w arena =
      bind-ok-elim (mc (mod_builtin c t) vm) _ h λ u e h₁. h₁
  run_security_checks-check_segment mc (bitwise _) b' vm j h w arena = h
  run_security_checks-check_segment mc (ec_op _) b' vm j h w arena = h
  run_security_checks-check_segment mc (hash _ _) b' vm j h w arena = h
  run_security_checks-check_segment mc (range_check _ _) b' vm j h w arena = h
  run_security_checks-check_segment mc (keccak _) b' vm j h w arena = h
  run_security_checks-check_segment mc (signature _) b' vm j h w arena = h
  run_security_checks-check_segment mc (poseidon _ _) b' vm j h w arena = h

  -- After the security checks of a builtin other than the segment arena have passed, a segment with
  -- a value in some cell has a value in each input cell of the instance that the cell belongs to.
  pub run_security_checks-is_set :
      (mod_checks : BuiltinRunner → VirtualMachine → Result VirtualMachineError (Unit {0}))
      (b b' : BuiltinRunner) (vm : VirtualMachine) (segment : Segment) (k j : ℕ)
      → run_security_checks mod_checks b vm ≡ ok b'
      → name b ≢ BuiltinName.segment_arena
      → get_elem? vm.segments.memory.data_segments (base b) ≡ some segment
      → is_set segment k ≡ true
      → j < n_input_cells b
      → is_set segment (cells_per_instance b * (k / cells_per_instance b) + j) ≡ true
  run_security_checks-is_set mc b b' vm segment k j h arena found here w =
      check_segment-is_set b b' vm segment k j (cells_per_instance-pos b w)
        (rw found at (run_security_checks-check_segment mc b b' vm j h w arena)) here w
