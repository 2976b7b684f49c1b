-- ===== src/Runner/Prepared.antt =====
-- vm/src/vm/runners/cairo_runner.rs: what a prepared run starts from.
use cairo_vm.Base.{
  ℕ, zero, suc, ◌+◌, ◌≡◌, refl, sym, ap, ◌∙◌, subst, some, List, [], ◌∷◌, ◌++◌, length,
  length-append, get_elem?, wrapping_add,
}
use cairo_vm.Base.Result.{
  ok, map_err, ok_or, bind-ok-elim, map_err-eq-ok, ok_or-eq-ok, ok-injective,
}
use cairo_vm.Types.Felt.{FeltOps}
use cairo_vm.Types.Value.{Relocatable, rel, MaybeRelocatable, relocatable_value}
use cairo_vm.Types.Errors.{RunnerError}
use cairo_vm.Types.Relocatable.{add_offset}
use cairo_vm.Memory.Store.{Memory, value_at, mark_as_accessed}
use cairo_vm.Memory.WriteOnce.{Extends}
use cairo_vm.Memory.Access.{value_at-mark_as_accessed}
use cairo_vm.Segments
use cairo_vm.Segments.{MemorySegmentManager}
use cairo_vm.Segments.Load.{AllValues, add_offset-eq-ok, Loaded, load_data-Loaded}
use cairo_vm.Vm.State.{VirtualMachine}
use cairo_vm.Runner.State.{CairoRunner}
use cairo_vm.Runner.Initialize.{
  load_data, mark_program, initialize_state, initialize_function_entrypoint, add_memory_segment,
}

module _ ⦃F : FeltOps⦄ where
  mark_program-value_at :
      (base : Relocatable) (i n : ℕ) (m m' : Memory) (r : Relocatable)
      → mark_program base i n m ≡ ok m'
      → value_at m' r ≡ value_at m r
  unfolding mark_program
  mark_program-value_at base i zero m m' r h = ap (λ x. value_at x r) (sym (ok-injective h))
  mark_program-value_at base i (suc n) m m' r h =
      bind-ok-elim (map_err RunnerError.math (add_offset base i)) _ h λ a e h₁.
        mark_program-value_at base (suc i) n (mark_as_accessed m a) m' r h₁
        ∙ value_at-mark_as_accessed m a r

  -- The values stand in memory from the address on.
  abbrev pub StandAt : Memory → Relocatable → List MaybeRelocatable → Type 0
  StandAt m base vs =
      (i : ℕ) (v : MaybeRelocatable)
      → get_elem? vs i ≡ some v
      → value_at m (rel base.segment_index (base.offset + (0 + i))) ≡ some v

  load_data-StandAt :
      (vm vm' : VirtualMachine) (ptr end : Relocatable) (vs : List MaybeRelocatable)
      → AllValues vs
      → load_data vm ptr vs ≡ ok (vm', end)
      → Loaded ptr 0 vs vm.segments.memory vm'.segments.memory
  unfolding load_data
  load_data-StandAt vm vm' ptr end vs hv h =
      bind-ok-elim (Segments.load_data vm.segments ptr vs) _ h λ p e h₁.
        subst (λ (s : MemorySegmentManager). Loaded ptr 0 vs vm.segments.memory s.memory)
          (ap (λ q. q.0.segments) (ok-injective h₁))
          (load_data-Loaded vm.segments p.0 ptr p.1 vs hv e).0

module _ {Hint V : Type 0} ⦃F : FeltOps⦄ where
  pub record IsPrepared (r r' : CairoRunner Hint V) (entrypoint : ℕ) (stack : List MaybeRelocatable)
      : Type 0 where
    pub program_base : Relocatable
    pub execution_base : Relocatable
    pub has_program_base : r.program_base ≡ some program_base
    pub has_execution_base : r.execution_base ≡ some execution_base
    pub keeps_fp : r'.initial_fp ≡ r.initial_fp
    pub keeps_ap : r'.initial_ap ≡ r.initial_ap
    pub starts :
        r'.initial_pc ≡ some (rel program_base.segment_index (program_base.offset + entrypoint))
    pub program_stands : StandAt r'.vm.segments.memory program_base r.program.data_words
    pub stack_stands : StandAt r'.vm.segments.memory execution_base stack
    pub extends : Extends r.vm.segments.memory r'.vm.segments.memory

  pub initialize_state-IsPrepared :
      (r r' : CairoRunner Hint V) (entrypoint : ℕ) (stack : List MaybeRelocatable)
      → AllValues r.program.data_words
      → AllValues stack
      → initialize_state r entrypoint stack ≡ ok r'
      → IsPrepared r r' entrypoint stack
  unfolding initialize_state
  initialize_state-IsPrepared r r' entrypoint stack hd hs h =
      bind-ok-elim (ok_or r.program_base RunnerError.no_prog_base) _ h λ base e₀ h₀.
        bind-ok-elim (ok_or r.execution_base RunnerError.no_exec_base) _ h₀ λ exec e₁ h₁.
          bind-ok-elim (map_err RunnerError.math (add_offset base entrypoint)) _ h₁ λ pc e₂ h₂.
            bind-ok-elim
              (map_err RunnerError.memory_initialization_error
                (load_data r.vm base r.program.data_words))
              _ h₂
              λ p e₃ h₃.
                bind-ok-elim (mark_program base 0 (length r.program.data_words) p.0.segments.memory)
                  _ h₃
                  λ m e₄ h₄.
                    bind-ok-elim
                      (map_err RunnerError.memory_initialization_error
                        (Segments.load_data (record p.0.segments { memory = m }) exec stack))
                      _ h₄
                      λ q e₅ h₅.
                        let m₀ = p.0.segments.memory in
                        let first =
                          load_data-StandAt r.vm p.0 base p.1 r.program.data_words hd
                            (map_err-eq-ok _ _ e₃) in
                        let marked = λ (a : Relocatable).
                          mark_program-value_at base 0 (length r.program.data_words) m₀ m a e₄ in
                        let second =
                          (load_data-Loaded (record p.0.segments { memory = m }) q.0 exec q.1 stack
                            hs (map_err-eq-ok _ _ e₅)).0 in
                        subst (λ x. IsPrepared r x entrypoint stack) (ok-injective h₅)
                          (record {
                            program_base = base;
                            execution_base = exec;
                            has_program_base = ok_or-eq-ok _ _ e₀;
                            has_execution_base = ok_or-eq-ok _ _ e₁;
                            keeps_fp = refl;
                            keeps_ap = refl;
                            starts =
                                ap (λ x. some x)
                                  (add_offset-eq-ok base entrypoint (map_err-eq-ok _ _ e₂));
                            program_stands =
                                λ i v e. second.extends _ v (marked _ ∙ first.here i v e);
                            stack_stands = λ i v e. second.here i v e;
                            extends = λ a w e. second.extends a w (marked a ∙ first.extends a w e);
                          })

  -- The frame of a function: its stack, the frame pointer to return to, and the address of a new
  -- segment as the address to return to. `fp` and `ap` point just past it.
  pub record IsEntered (r r' : CairoRunner Hint V) (entrypoint : ℕ) (stack : List MaybeRelocatable)
      (return_fp : MaybeRelocatable) (end : Relocatable) : Type 0 where
    pub program_base : Relocatable
    pub execution_base : Relocatable
    pub has_program_base : r.program_base ≡ some program_base
    pub has_execution_base : r.execution_base ≡ some execution_base
    pub new_end : (add_memory_segment r.vm).1 ≡ end
    pub starts :
        r'.initial_pc ≡ some (rel program_base.segment_index (program_base.offset + entrypoint))
    pub stops : r'.final_pc ≡ some end
    pub frame_pointer :
        r'.initial_fp
        ≡ some (
            rel execution_base.segment_index
              (wrapping_add execution_base.offset (length stack + 2)))
    pub allocation_pointer : r'.initial_ap ≡ r'.initial_fp
    pub program_stands : StandAt r'.vm.segments.memory program_base r.program.data_words
    pub frame_stands :
        StandAt r'.vm.segments.memory execution_base
          (stack ++ return_fp ∷ relocatable_value end ∷ [])

  -- A function entry that is prepared without an error has the program in memory at its base, the
  -- stack of the function at the execution base, followed by the frame pointer and the address to
  -- return to, which is a new segment and where the run is to stop; `fp` and `ap` are just past
  -- them, and `pc` is at the entry point. The words of the program and of the stack fit their
  -- cells.
  pub initialize_function_entrypoint-IsEntered :
      (r r' : CairoRunner Hint V) (entrypoint : ℕ) (stack : List MaybeRelocatable)
      (return_fp : MaybeRelocatable) (end : Relocatable)
      → AllValues r.program.data_words
      → AllValues (stack ++ return_fp ∷ relocatable_value (add_memory_segment r.vm).1 ∷ [])
      → initialize_function_entrypoint r entrypoint stack return_fp ≡ ok (r', end)
      → IsEntered r r' entrypoint stack return_fp end
  unfolding initialize_function_entrypoint
  initialize_function_entrypoint-IsEntered r r' entrypoint stack return_fp end hd hs h =
      let e = (add_memory_segment r.vm).1 in
      let frame = stack ++ return_fp ∷ relocatable_value e ∷ [] in
      bind-ok-elim (ok_or r.execution_base RunnerError.no_exec_base) _ h λ base e₀ h₀.
        let fp = rel base.segment_index (wrapping_add base.offset (length frame)) in
        bind-ok-elim
          (initialize_state
            (record r {
              vm = (add_memory_segment r.vm).0;
              initial_fp = some fp;
              initial_ap = some fp;
            })
            entrypoint frame)
          _ h₀
          λ x e₁ h₁.
            let z =
              initialize_state-IsPrepared
                (record r {
                  vm = (add_memory_segment r.vm).0;
                  initial_fp = some fp;
                  initial_ap = some fp;
                })
                x entrypoint frame hd hs e₁ in
            let same : z.execution_base ≡ base = cc (z.has_execution_base, ok_or-eq-ok _ _ e₀) in
            let long : length frame ≡ length stack + 2 =
              length-append stack (return_fp ∷ relocatable_value e ∷ []) in
            let pointer : x.initial_fp
                ≡ some (rel base.segment_index (wrapping_add base.offset (length stack + 2))) =
              z.keeps_fp
              ∙ ap (λ n. some (rel base.segment_index (wrapping_add base.offset n))) long in
            subst (λ y. IsEntered r y.0 entrypoint stack return_fp y.1) (ok-injective h₁)
              (record {
                program_base = z.program_base;
                execution_base = base;
                has_program_base = z.has_program_base;
                has_execution_base = ok_or-eq-ok _ _ e₀;
                new_end = refl;
                starts = z.starts;
                stops = refl;
                frame_pointer = pointer;
                allocation_pointer = z.keeps_ap ∙ sym z.keeps_fp;
                program_stands = z.program_stands;
                frame_stands =
                    subst (λ b. StandAt x.vm.segments.memory b frame) same z.stack_stands;
              })
