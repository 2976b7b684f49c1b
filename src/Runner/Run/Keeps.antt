-- ===== src/Runner/Run/Keeps.antt =====
-- vm/src/vm/runners/cairo_runner.rs: what a run with hints leaves alone.
use cairo_vm.Base.{◌≡◌, some}
use cairo_vm.Base.Result.{ok}
use cairo_vm.Types.Felt.{FeltOps}
use cairo_vm.Types.Value.{Relocatable, MaybeRelocatable}
use cairo_vm.Memory.Store.{get}
use cairo_vm.Builtins.Runner.{HashOps}
use cairo_vm.Vm.Hints.{HintProcessor, State}

module _ ⦃F : FeltOps⦄ ⦃H : HashOps⦄ (P : HintProcessor) where
  -- An address reads as a value.
  abbrev Reads : State P → Relocatable → MaybeRelocatable → Type 0
  Reads s r w = get s.vm.segments.memory r ≡ some w

  -- The hints of a processor change no reading, as when they only insert into memory.
  abbrev pub HintsKeep : Type 0
  HintsKeep =
      (d : P.HintData) (s s' : State P) (r : Relocatable) (w : MaybeRelocatable)
      → P.execute_hint d s ≡ ok s'
      → Reads s r w
      → Reads s' r w
