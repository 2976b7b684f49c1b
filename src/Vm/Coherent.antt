-- ===== src/Vm/Coherent.antt =====
-- The instruction cache of vm/src/vm/vm_core.rs holds what the memory decodes to.
use cairo_vm.Base.{
  ℕ, ◌+◌, ◌≤◌, ◌≡◌, sym, ap, ◌∙◌, Option, none, some, List, [], ◌∷◌, arith, leb, ◌==◌, Bool-cases,
  Option-cases, inl, inr, length, get_elem?, set, grow, get_elem?-set_self, get_elem?-set_ne,
  get_elem?-grow_lt, get_elem?-grow_pad, get_elem?-ge, length-grow_ge, if-eq_then, if-eq_else,
  subst, ltb,
}
use cairo_vm.Base.Int.{pos, eqb_ℤ_iff}
use cairo_vm.Base.Result.{ok, err, map_err, and_then, bind-ok-elim, map_err-eq-ok}
use cairo_vm.Types.Felt.{Felt, FeltOps}
use cairo_vm.Types.Errors.{MemoryError, VirtualMachineError}
use cairo_vm.Types.Value.{Relocatable, rel, MaybeRelocatable, int}
use cairo_vm.Types.Instruction.{Instruction}
use cairo_vm.RunContext.{RunContext}
use cairo_vm.Memory.Store.{Memory, Segment, get, value_at}
use cairo_vm.Memory.Reads.{get_integer, integer_of}
use cairo_vm.Builtins.Runner.{HashOps}
use cairo_vm.Vm.State.{VirtualMachine}
use cairo_vm.Vm.Step.{
  decode_current_instruction, run_or_skip, step_instruction, step_cached, cached_instruction,
  is_program_segment, first_length,
}
use cairo_vm.Vm.Frame.{Keeps, run_or_skip-Keeps, run_or_skip-cache}

abbrev at_offset : ℕ → RunContext
at_offset pc = record { pc = rel (pos 0) pc; ap = 0; fp = 0 }

integer_of-eq-ok :
    (key : Relocatable) (v : Option MaybeRelocatable) (x : Felt)
    → integer_of key v ≡ ok x
    → v ≡ some (int x)
unfolding integer_of
integer_of-eq-ok key v x h = ground arith

cell-beyond :
    (segments : List Segment) (o n : ℕ)
    → first_length segments ≡ some n
    → n ≤ o
    → and_then (get_elem? segments 0) (λ segment. get_elem? segment o) ≡ none
cell-beyond [] o n h le = cc
cell-beyond (s ∷ ss) o n h le = get_elem?-ge s o (ground arith)

module _ ⦃F : FeltOps⦄ where
  -- A cached instruction is what the memory at its place decodes to.
  abbrev pub IsCoherent : VirtualMachine → Type 0
  IsCoherent vm =
      (pc : ℕ) (i : Instruction)
      → get_elem? vm.instruction_cache pc ≡ some (some i)
      → decode_current_instruction vm.segments.memory (at_offset pc) ≡ ok i

  decode_current_instruction-pc :
      (m : Memory) (c : RunContext)
      → c.pc.segment_index ≡ pos 0
      → decode_current_instruction m (at_offset c.pc.offset) ≡ decode_current_instruction m c
  unfolding decode_current_instruction
  decode_current_instruction-pc m c h =
      let p : rel (pos 0) c.pc.offset ≡ c.pc = ap (λ s. rel s c.pc.offset) (sym h) in rw p

  pub get_integer-Keeps :
      (m m' : Memory) (key : Relocatable) (x : Felt)
      → Keeps m m'
      → get_integer m key ≡ ok x
      → get_integer m' key ≡ ok x
  unfolding get_integer integer_of
  get_integer-Keeps m m' key x k h = rw (k key (int x) (integer_of-eq-ok key (get m key) x h))

  decode_current_instruction-Keeps :
      (m m' : Memory) (c : RunContext) (i : Instruction)
      → Keeps m m'
      → decode_current_instruction m c ≡ ok i
      → decode_current_instruction m' c ≡ ok i
  unfolding decode_current_instruction
  decode_current_instruction-Keeps m m' c i k h =
      bind-ok-elim (map_err VirtualMachineError.memory (get_integer m c.pc)) _ h
        λ x e h'. rw (get_integer-Keeps m m' c.pc x k (map_err-eq-ok _ _ e)) h'

  get_elem?-grow-some :
      (cache : List (Option Instruction)) (n pc : ℕ) (i : Instruction)
      → get_elem? (grow cache n none) pc ≡ some (some i)
      → get_elem? cache pc ≡ some (some i)
  get_elem?-grow-some cache n pc i h = elim (Bool-cases (ltb pc (length cache))) [
    | inl below ↦ sym (get_elem?-grow_lt cache n pc none (ground arith)) ∙ h
    | inr beyond ↦ absurd (let p = get_elem?-grow_pad cache n pc none (ground arith) h in cc)
  ]

  -- Beyond the end of the program segment there is nothing to decode.
  pub decode_current_instruction-beyond :
      (m : Memory) (c : RunContext) (n : ℕ)
      → c.pc.segment_index ≡ pos 0
      → first_length m.data_segments ≡ some n
      → n ≤ c.pc.offset
      → decode_current_instruction m c
        ≡ err
            (VirtualMachineError.memory (MemoryError.unknown_memory_cell (rel (pos 0) c.pc.offset)))
  unfolding decode_current_instruction get_integer integer_of get value_at
  decode_current_instruction-beyond m c n first len beyond =
      let p : c.pc ≡ rel (pos 0) c.pc.offset = ap (λ s. rel s c.pc.offset) first in
      rw (p, cell-beyond m.data_segments c.pc.offset n len beyond)

module _ ⦃F : FeltOps⦄ ⦃H : HashOps⦄ where
  pub cached_instruction-decodes :
      (vm : VirtualMachine) (n : ℕ)
      → IsCoherent vm
      → vm.run_context.pc.segment_index ≡ pos 0
      → cached_instruction vm
          (get_elem? (grow vm.instruction_cache n none) vm.run_context.pc.offset)
        ≡ decode_current_instruction vm.segments.memory vm.run_context
  cached_instruction-decodes vm n coherent first =
      elim (Option-cases (get_elem? (grow vm.instruction_cache n none) vm.run_context.pc.offset)) [
        | inl gone ↦ rw gone
        | inr (none, found) ↦ rw found
        | inr (some i, found) ↦ rw found (
            sym (
              coherent vm.run_context.pc.offset i
                (get_elem?-grow-some vm.instruction_cache n vm.run_context.pc.offset i found))
            ∙ decode_current_instruction-pc vm.segments.memory vm.run_context first)
      ]

  pub step_cached-inside :
      (vm : VirtualMachine) (n : ℕ) (vm' : VirtualMachine)
      → step_cached vm (some n) vm.run_context.pc.offset ≡ ok vm'
      → (i : Instruction) × (w : VirtualMachine) × (cached_instruction vm (
            get_elem?
              (grow vm.instruction_cache (vm.run_context.pc.offset + 1) none)
              vm.run_context.pc.offset)
          ≡ ok i)
        × (run_or_skip vm i ≡ ok w)
        × (vm' ≡ record w {
          instruction_cache =
              set
                (grow vm.instruction_cache (vm.run_context.pc.offset + 1) none)
                vm.run_context.pc.offset
                (some i);
        })
  step_cached-inside vm n vm' h = elim (Bool-cases (leb n vm.run_context.pc.offset)) [
    | inl beyond ↦ absurd (let p = if-eq_then _ _ _ beyond h in cc)
    | inr inside ↦
        bind-ok-elim (cached_instruction vm _) _ (if-eq_else _ _ _ inside h)
          λ i e h₁. bind-ok-elim (run_or_skip vm i) _ h₁ λ w e' h₂. (i, w, e, e', cc)
  ]

  run_or_skip-decoded :
      (vm w : VirtualMachine) (i : Instruction)
      → IsCoherent vm
      → run_or_skip vm i ≡ ok w
      → vm.run_context.pc.segment_index ≡ pos 0
      → decode_current_instruction vm.segments.memory vm.run_context ≡ ok i
      → IsCoherent (record w {
        instruction_cache =
            set
              (grow vm.instruction_cache (vm.run_context.pc.offset + 1) none)
              vm.run_context.pc.offset
              (some i);
      })
  run_or_skip-decoded vm w i coherent run first decoded pc j h =
      let keeps = run_or_skip-Keeps vm w i run in
      elim (Bool-cases (vm.run_context.pc.offset == pc)) [
        | inl same ↦
            let here_at : vm.run_context.pc.offset ≡ pc = ground arith in
            let here =
              get_elem?-set_self (grow vm.instruction_cache (vm.run_context.pc.offset + 1) none)
                vm.run_context.pc.offset (some i)
                (omega (
                  arith,
                  length-grow_ge vm.instruction_cache (vm.run_context.pc.offset + 1) none,
                )) in
            let q : some (some i) ≡ some (some j) = sym here ∙ (rw here_at) ∙ h in
            let ij : i ≡ j = cc q in
            decode_current_instruction-Keeps vm.segments.memory w.segments.memory (at_offset pc) j
              keeps
              (sym (rw here_at)
                ∙ decode_current_instruction-pc vm.segments.memory vm.run_context first
                ∙ decoded
                ∙ ap ok ij)
        | inr other ↦
            decode_current_instruction-Keeps vm.segments.memory w.segments.memory (at_offset pc) j
              keeps
              (coherent pc j (
                get_elem?-grow-some vm.instruction_cache (vm.run_context.pc.offset + 1) pc j (
                  sym (get_elem?-set_ne _ vm.run_context.pc.offset pc (some i) (ground arith))
                  ∙ h)))
      ]

  step_cached-IsCoherent :
      (vm vm' : VirtualMachine) (n : ℕ)
      → IsCoherent vm
      → vm.run_context.pc.segment_index ≡ pos 0
      → step_cached vm (some n) vm.run_context.pc.offset ≡ ok vm'
      → IsCoherent vm'
  step_cached-IsCoherent vm vm' n coherent first h =
      let (i, w, e, run, p) = step_cached-inside vm n vm' h in
      subst IsCoherent (sym p) (
        run_or_skip-decoded vm w i coherent run first
          (sym (cached_instruction-decodes vm (vm.run_context.pc.offset + 1) coherent first) ∙ e))

  -- A coherent cache stays coherent: a step adds what it has decoded, and memory keeps its values.
  pub step_instruction-IsCoherent :
      (vm vm' : VirtualMachine) → IsCoherent vm → step_instruction vm ≡ ok vm' → IsCoherent vm'
  unfolding step_instruction
  step_instruction-IsCoherent vm vm' coherent h =
      elim (Bool-cases (is_program_segment vm.run_context.pc.segment_index)) [
        | inl first ↦
            let zero : vm.run_context.pc.segment_index ≡ pos 0 = (eqb_ℤ_iff _ _).0 first in
            let h₁ = if-eq_then _ _ _ first h in
            elim (Option-cases (first_length vm.segments.memory.data_segments)) [
              | inl gone ↦ absurd (let k = rw gone at h₁ in cc)
              | inr (n, len) ↦ step_cached-IsCoherent vm vm' n coherent zero (rw len at h₁)
            ]
        | inr other ↦
            bind-ok-elim (decode_current_instruction vm.segments.memory vm.run_context) _
              (if-eq_else _ _ _ other h)
              λ i e run. λ pc j found.
                decode_current_instruction-Keeps vm.segments.memory vm'.segments.memory
                  (at_offset pc) j (run_or_skip-Keeps vm vm' i run)
                  (coherent pc j
                    (sym (ap (λ c. get_elem? c pc) (run_or_skip-cache vm vm' i run)) ∙ found))
      ]
