-- ===== src/Runner/Run/Ends.antt =====
-- vm/src/vm/runners/cairo_runner.rs: a run whose steps are counted ends, at its address or with an
-- error.
use cairo_vm.Base.{
  ℕ, zero, suc, ◌≤◌, ◌<◌, ◌≡◌, refl, ◌⊎◌, inl, inr, Bool, true, false, ◌||◌, Option, some, List,
  arith, Bool-cases, subst,
}
use native.Mathlib.Decide.{dec_lt}
use cairo_vm.Base.Result.{Result, ok, err, bind-ok-elim, Result-cases, ok-injective}
use cairo_vm.Types.Felt.{FeltOps}
use cairo_vm.Types.Value.{Relocatable, eqb_rel, eqb_rel_iff}
use cairo_vm.Types.Errors.{VirtualMachineError}
use cairo_vm.Builtins.Runner.{HashOps}
use cairo_vm.Vm.Hints.{HintProcessor, State, step}
use cairo_vm.Vm.Hints.Metered.{Metered, step-le}
use cairo_vm.Runner.State.{Program}
use cairo_vm.Runner.Run.{
  get_hint_data, hints_at, finished, stops, one_round, run_loop, run_until_pc,
}

not_consumed : (a b : Bool) → (a || b) ≡ false → b ≡ false
not_consumed true b h = cc h
not_consumed false b h = h

module _ ⦃F : FeltOps⦄ ⦃H : HashOps⦄ (P : HintProcessor) where
  -- How a run can end.
  abbrev pub Ended : Relocatable → Option (Result VirtualMachineError (State P)) → Type 0
  Ended address out =
      ((s : State P) × (out ≡ some (ok s)) × (s.vm.run_context.pc ≡ address))
      ⊎ ((e : VirtualMachineError) × (out ≡ some (err e)))

  finished-Ended :
      (address : Relocatable) (s : State P) → Ended address (some (finished P address s))
  unfolding finished
  finished-Ended address s = elim (Bool-cases (eqb_rel s.vm.run_context.pc address)) [
    | inl there ↦ rw there (inl (s, refl, (eqb_rel_iff _ _).0 there))
    | inr elsewhere ↦ rw elsewhere (inr (VirtualMachineError.unfinished_execution, refl))
  ]

  module _ (M : Metered P) where
    consume_step-lt :
        (p p' : P.Processor)
        → P.consumed p ≡ false
        → M.steps_left p' ≤ M.steps_left p
        → M.steps_left (P.consume_step p') < M.steps_left p
    consume_step-lt p p' going le = elim (dec_lt 0 (M.steps_left p')) [
      | yes more ↦ omega (arith, M.consume_step_lem p' more)
      | no none_left ↦ elim (dec_lt 0 (M.steps_left p)) [
        | yes some_left ↦ omega (arith, M.consume_step-le p')
        | no nothing ↦
            let all_gone : M.steps_left p ≡ 0 = omega arith in cc (M.consumed_lem p all_gone, going)
      ]
    ]

    one_round-lt :
        (program : Program P.Hint) (ds : List P.HintData) (address : Relocatable) (s s' : State P)
        → stops P address s ≡ false
        → one_round P program ds s ≡ ok s'
        → M.steps_left s'.processor < M.steps_left s.processor
    unfolding one_round stops
    one_round-lt program ds address s s' going h =
        bind-ok-elim (step P (hints_at P program ds s.vm.run_context.pc) s) _ h λ t e h₁.
          subst (λ (x : State P). M.steps_left x.processor < M.steps_left s.processor)
            (ok-injective h₁)
            (consume_step-lt s.processor t.processor (not_consumed _ _ going) (step-le P M _ s t e))

    run_loop-Ended :
        (rounds : ℕ) (program : Program P.Hint) (ds : List P.HintData) (address : Relocatable)
        (s : State P)
        → M.steps_left s.processor < rounds
        → Ended address (run_loop P rounds program ds address s)
    unfolding run_loop
    run_loop-Ended zero program ds address s h = elim h [ ]
    run_loop-Ended (suc rounds) program ds address s h = elim (Bool-cases (stops P address s)) [
      | inl stop ↦ rw (run_loop, stop) (finished-Ended address s)
      | inr go ↦ elim (Result-cases (one_round P program ds s)) [
        | inl o ↦
            rw (run_loop, go, o.1)
              (run_loop-Ended rounds program ds address o.0
                (omega (arith, one_round-lt program ds address s o.0 go o.1)))
        | inr o ↦ rw (run_loop, go, o.1) (inr (o.0, refl))
      ]
    ]

    -- With a hint processor that counts the steps that are left, and hints that give a run no
    -- further steps, one round more than there are steps left is enough for `run_until_pc`: the run
    -- ends, with an error or at the address asked for.
    pub run_until_pc-Ended :
        (rounds : ℕ) (program : Program P.Hint) (address : Relocatable) (s : State P)
        → M.steps_left s.processor < rounds
        → Ended address (run_until_pc P rounds program address s)
    unfolding run_until_pc
    run_until_pc-Ended rounds program address s h =
        elim (Result-cases (get_hint_data P program s.processor)) [
          | inl o ↦ rw (run_until_pc, o.1) (run_loop-Ended rounds program o.0 address s h)
          | inr o ↦ rw (run_until_pc, o.1) (inr (o.0, refl))
        ]
