-- ===== src/Vm/EndRun.antt =====
-- vm/src/vm/vm_core.rs: the end of a run, where the memory of the builtins is checked against what
-- they deduce.
use cairo_vm.Base.{
  ℕ, zero, suc, ◌+◌, ◌≡◌, sym, ap, ◌∙◌, true, Option, none, some, List, [], ◌∷◌, arith, ◌==◌,
  if◌then◌else◌, get_elem?, subst,
}
use cairo_vm.Base.Int.{pos}
use cairo_vm.Base.Result.{
  Result, ok, err, ok-injective, ◌>>=◌, map_err, ok_or, bind-ok-elim, map_err-eq-ok, ok_or-eq-ok,
}
use cairo_vm.Types.Felt.{FeltOps}
use cairo_vm.Types.Value.{Relocatable, rel, MaybeRelocatable, eqb, eqb_iff}
use cairo_vm.Types.BuiltinName.{BuiltinName}
use cairo_vm.Types.Errors.{VirtualMachineError}
use cairo_vm.Types.Relocatable.{add_offset}
use cairo_vm.Memory.Cell.{MemoryCell, get_value}
use cairo_vm.Memory.Store.{Memory, Segment, get, mark_as_accessed}
use cairo_vm.Builtins.Runner.{HashOps, BuiltinRunner, Common, bitwise, base, name}
use cairo_vm.Builtins.Bitwise
use cairo_vm.Builtins.Deduce.{deduce_by}
use cairo_vm.Vm.State.{VirtualMachine}

-- A cell that has a value must have the one that is deduced for it.
abbrev pub consistent :
    BuiltinName
    → Option MaybeRelocatable
    → Option MaybeRelocatable
    → Result VirtualMachineError (Unit {0})
consistent builtin none value = ok tt
consistent builtin (some deduced) none = ok tt
consistent builtin (some deduced) (some value) =
    if eqb deduced value
    then ok tt
    else err (VirtualMachineError.inconsistent_auto_deduction builtin deduced (some value))

consistent-eq :
    (builtin : BuiltinName) (deduced value : MaybeRelocatable)
    → consistent builtin (some deduced) (some value) ≡ ok tt
    → deduced ≡ value
consistent-eq builtin deduced value h = ground (arith, eqb_iff deduced value)

module _ ⦃F : FeltOps⦄ ⦃H : HashOps⦄ where
  -- The cells of a builtin's segment from `offset` on; the runner's cache is passed along.
  unfoldable pub verify_cells :
      Memory → ℕ → ℕ → Segment → BuiltinRunner → Result VirtualMachineError BuiltinRunner
  unfolding deduce_by get_value name
  verify_cells m index offset [] b = ok b
  verify_cells m index offset (c ∷ cs) b =
      map_err VirtualMachineError.runner_error (deduce_by b (rel (pos index) offset) m)
      >>= λ (deduced, b'). consistent (name b) deduced (get_value c) >>= λ checked.
          verify_cells m index (suc offset) cs b'

  unfoldable pub verify_runners :
      Memory → List BuiltinRunner → Result VirtualMachineError (List BuiltinRunner)
  unfolding verify_cells base
  verify_runners m [] = ok []
  verify_runners m (b ∷ bs) =
      ok_or (get_elem? m.data_segments (base b)) VirtualMachineError.panicked >>= λ segment.
      verify_cells m (base b) 0 segment b >>= λ b'. verify_runners m bs >>= λ bs'. ok (b' ∷ bs')

  unfoldable pub verify_auto_deductions : VirtualMachine → Result VirtualMachineError VirtualMachine
  unfolding verify_runners
  verify_auto_deductions vm = do
    bs ← verify_runners vm.segments.memory vm.builtin_runners
    ok (record vm { builtin_runners = bs })

  -- The check of one cell of a builtin, whose cache the source updates in place.
  unfoldable pub verify_auto_deductions_for_addr :
      VirtualMachine → Relocatable → BuiltinRunner → Result VirtualMachineError BuiltinRunner
  unfolding deduce_by name
  verify_auto_deductions_for_addr vm addr b =
      map_err VirtualMachineError.runner_error (deduce_by b addr vm.segments.memory)
      >>= λ (deduced, b').
          consistent (name b) deduced (get vm.segments.memory addr) >>= λ checked. ok b'

  -- `end_run`, where `scopes` is the number of execution scopes.
  unfoldable pub end_run : VirtualMachine → ℕ → Result VirtualMachineError VirtualMachine
  unfolding verify_auto_deductions
  end_run vm scopes = do
    vm' ← verify_auto_deductions vm
    if scopes == 1
        then ok (record vm' { run_finished = true })
        else err VirtualMachineError.no_scope_error

  -- The addresses of `mark_address_range_as_accessed` from position `i` on, `n` of them.
  unfoldable pub mark_range : Relocatable → ℕ → ℕ → Memory → Result VirtualMachineError Memory
  mark_range start i zero m = ok m
  mark_range start i (suc n) m = do
    a ← map_err VirtualMachineError.math (add_offset start i)
    mark_range start (suc i) n (mark_as_accessed m a)

  unfoldable pub mark_address_range_as_accessed :
      VirtualMachine → Relocatable → ℕ → Result VirtualMachineError VirtualMachine
  unfolding mark_range
  mark_address_range_as_accessed vm start len =
      let segments = vm.segments in
      if vm.run_finished
      then (mark_range start 0 len segments.memory >>= λ m.
          ok (record vm { segments = record segments { memory = m } }))
      else err VirtualMachineError.run_not_finished

  -- What is checked of each cell of the bitwise builtin.
  abbrev BitwiseConsistent : Memory → ℕ → ℕ → Segment → Type 0
  BitwiseConsistent m index offset segment =
      (k : ℕ) (c : MemoryCell) (v w : MaybeRelocatable)
      → get_elem? segment k ≡ some c
      → Bitwise.deduce_memory_cell (get m) (rel (pos index) (offset + k)) ≡ ok (some v)
      → get_value c ≡ some w
      → v ≡ w

  deduce_by-bitwise :
      (r : Common) (a : Relocatable) (m : Memory) (u : Option MaybeRelocatable)
      (p : Option MaybeRelocatable × BuiltinRunner)
      → Bitwise.deduce_memory_cell (get m) a ≡ ok u
      → deduce_by (bitwise r) a m ≡ ok p
      → u ≡ p.0
  unfolding deduce_by
  deduce_by-bitwise r a m u p d h =
      bind-ok-elim (Bitwise.deduce_memory_cell (get m) a) _ h
        λ v e h'. ok-injective (sym d ∙ e) ∙ ap (λ q. q.0) (ok-injective h')

  deduce_by-bitwise_runner :
      (r : Common) (a : Relocatable) (m : Memory) (p : Option MaybeRelocatable × BuiltinRunner)
      → deduce_by (bitwise r) a m ≡ ok p
      → p.1 ≡ bitwise r
  unfolding deduce_by
  deduce_by-bitwise_runner r a m p h =
      bind-ok-elim (Bitwise.deduce_memory_cell (get m) a) _ h
        λ v e h'. sym (ap (λ q. q.1) (ok-injective h'))

  verify_cells-BitwiseConsistent :
      (m : Memory) (index offset : ℕ) (segment : Segment) (c : Common) (b : BuiltinRunner)
      → verify_cells m index offset segment (bitwise c) ≡ ok b
      → BitwiseConsistent m index offset segment
  unfolding verify_cells
  verify_cells-BitwiseConsistent m index offset [] r b h k c v w here d e = cc here
  verify_cells-BitwiseConsistent m index offset (x ∷ xs) r b h zero c v w here d e =
      bind-ok-elim
        (map_err VirtualMachineError.runner_error
          (deduce_by (bitwise r) (rel (pos index) offset) m))
        _ h
        λ p e₁ h₁. bind-ok-elim (consistent (name (bitwise r)) p.0 (get_value x)) _ h₁ λ t e₂ h₂.
          let o : offset + 0 ≡ offset = omega arith in
          let found : some v ≡ p.0 =
            deduce_by-bitwise r (rel (pos index) offset) m (some v) p (rw o at d)
              (map_err-eq-ok _ _ e₁) in
          let value : get_value x ≡ some w = ap get_value (cc here) ∙ e in
          consistent-eq (name (bitwise r)) v w (
            ap (λ y. consistent (name (bitwise r)) y (some w)) found
            ∙ ap (λ y. consistent (name (bitwise r)) p.0 y) (sym value)
            ∙ e₂)
  verify_cells-BitwiseConsistent m index offset (x ∷ xs) r b h (suc k) c v w here d e =
      bind-ok-elim
        (map_err VirtualMachineError.runner_error
          (deduce_by (bitwise r) (rel (pos index) offset) m))
        _ h
        λ p e₁ h₁. bind-ok-elim (consistent (name (bitwise r)) p.0 (get_value x)) _ h₁ λ t e₂ h₂.
          let o : offset + suc k ≡ suc offset + k = omega arith in
          let same : p.1 ≡ bitwise r =
            deduce_by-bitwise_runner r (rel (pos index) offset) m p (map_err-eq-ok _ _ e₁) in
          verify_cells-BitwiseConsistent m index (suc offset) xs r b
            (ap (λ y. verify_cells m index (suc offset) xs y) (sym same) ∙ h₂) k c v w here
            (rw o at d) e

  verify_runners-BitwiseConsistent :
      (m : Memory) (runners runners' : List BuiltinRunner) (i : ℕ) (c : Common) (segment : Segment)
      → get_elem? runners i ≡ some (bitwise c)
      → get_elem? m.data_segments c.base ≡ some segment
      → verify_runners m runners ≡ ok runners'
      → BitwiseConsistent m c.base 0 segment
  unfolding verify_runners base
  verify_runners-BitwiseConsistent m [] bs' i c segment here found h = cc here
  verify_runners-BitwiseConsistent m (b ∷ bs) bs' zero c segment here found h =
      let same : bitwise c ≡ b = cc here in
      bind-ok-elim (ok_or (get_elem? m.data_segments c.base) VirtualMachineError.panicked) _
        (ap (λ y. verify_runners m (y ∷ bs)) same ∙ h)
        λ s e₁ h₁. bind-ok-elim (verify_cells m c.base 0 s (bitwise c)) _ h₁ λ b' e₂ h₂.
          let p : some s ≡ some segment = sym (ok_or-eq-ok _ _ e₁) ∙ found in
          subst (BitwiseConsistent m c.base 0) (cc p)
            (verify_cells-BitwiseConsistent m c.base 0 s c b' e₂)
  verify_runners-BitwiseConsistent m (b ∷ bs) bs' (suc j) c segment here found h =
      bind-ok-elim (ok_or (get_elem? m.data_segments (base b)) VirtualMachineError.panicked) _ h
        λ s e₁ h₁. bind-ok-elim (verify_cells m (base b) 0 s b) _ h₁ λ b' e₂ h₂.
          bind-ok-elim (verify_runners m bs) _ h₂
            λ rest e₃ h₃. verify_runners-BitwiseConsistent m bs rest j c segment here found e₃

  -- After a run has ended without an error, each cell of a bitwise builtin that has a value and
  -- for which a value is deduced holds the deduced value.
  pub end_run-deduce_memory_cell :
      (vm vm' : VirtualMachine) (scopes i : ℕ) (c : Common) (segment : Segment) (k : ℕ)
      (cell : MemoryCell) (v w : MaybeRelocatable)
      → get_elem? vm.builtin_runners i ≡ some (bitwise c)
      → get_elem? vm.segments.memory.data_segments c.base ≡ some segment
      → end_run vm scopes ≡ ok vm'
      → get_elem? segment k ≡ some cell
      → Bitwise.deduce_memory_cell (get vm.segments.memory) (rel (pos c.base) k) ≡ ok (some v)
      → get_value cell ≡ some w
      → v ≡ w
  unfolding end_run verify_auto_deductions
  end_run-deduce_memory_cell vm vm' scopes i c segment k cell v w here found h cell_at d value =
      bind-ok-elim (verify_auto_deductions vm) _ h λ x e h₁.
        bind-ok-elim (verify_runners vm.segments.memory vm.builtin_runners) _ e λ bs e₂ h₂.
          let o : k ≡ 0 + k = omega arith in
          verify_runners-BitwiseConsistent vm.segments.memory vm.builtin_runners bs i c segment here
            found e₂ k cell v w cell_at
            (ap (λ y. Bitwise.deduce_memory_cell (get vm.segments.memory) (rel (pos c.base) y))
                (sym o)
              ∙ d)
            value
