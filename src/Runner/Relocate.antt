-- ===== src/Runner/Relocate.antt =====
-- vm/src/vm/runners/cairo_runner.rs and vm/src/vm/trace/mod.rs: the memory and the trace of a run
-- in one flat memory.
pub mod Cells
pub mod Flat
use cairo_vm.Base.{
  ℕ, zero, suc, ◌+◌, Bool, true, false, ◌&&◌, not, Option, none, some, List, [], ◌∷◌, ◌++◌,
  if◌then◌else◌, is_some, wrapping_add, get_elem?, set, grow,
}
use cairo_vm.Base.Int.{ℤ, pos, negsuc}
use cairo_vm.Base.Result.{Result, ok, err, ◌>>=◌, map_err, ok_or}
use cairo_vm.Types.Felt.{Felt, FeltOps}
use cairo_vm.Types.Value.{Relocatable, rel, MaybeRelocatable}
use cairo_vm.Types.Errors.{MemoryError, TraceError}
use cairo_vm.Types.Relocatable.{relocate_address, relocate_value}
use cairo_vm.Memory.Cell.{MemoryCell, get_value}
use cairo_vm.Memory.Store.{Segment}
use cairo_vm.Segments.{compute_effective_sizes, relocate_segments}
use cairo_vm.Vm.State.{VirtualMachine, TraceEntry}
use cairo_vm.Runner.State.{CairoRunner, RelocatedTraceEntry}

-- A write past the end pads the memory with empty cells.
put_at : List (Option Felt) → ℕ → Felt → List (Option Felt)
put_at flat a w = set (grow flat (a + 1) none) a (some w)

module _ ⦃F : FeltOps⦄ where
  -- A cell without a value adds an empty cell at the end.
  relocate_cell :
      List ℕ → ℕ → ℕ → MemoryCell → List (Option Felt) → Result MemoryError (List (Option Felt))
  unfolding put_at
  relocate_cell table index offset cell flat = elim (get_value cell) [
    | some v ↦ relocate_address (rel (pos index) offset) table >>= λ a.
        relocate_value v table >>= λ w. ok (put_at flat a w)
    | none ↦ ok (flat ++ none ∷ [])
  ]

  pub relocate_cells :
      List ℕ → ℕ → ℕ → Segment → List (Option Felt) → Result MemoryError (List (Option Felt))
  unfolding relocate_cell
  relocate_cells table index offset [] flat = ok flat
  relocate_cells table index offset (c ∷ cs) flat =
      relocate_cell table index offset c flat >>= relocate_cells table index (suc offset) cs

  relocate_rows :
      List ℕ → ℕ → List Segment → List (Option Felt) → Result MemoryError (List (Option Felt))
  unfolding relocate_cells
  relocate_rows table index [] flat = ok flat
  relocate_rows table index (s ∷ ss) flat =
      relocate_cells table index 0 s flat >>= relocate_rows table (suc index) ss

relocate_trace_index : ℤ → ℕ → List ℕ → Result TraceError ℕ
relocate_trace_index (negsuc n) offset table =
    err (TraceError.memory_error (MemoryError.address_in_temporary_segment (negsuc n)))
relocate_trace_index (pos i) offset table =
    ok_or (get_elem? table i) TraceError.no_relocation_found >>= λ base.
    ok (wrapping_add base offset)

relocate_trace_register : Relocatable → List ℕ → Result TraceError ℕ
unfolding relocate_trace_index
relocate_trace_register r table = relocate_trace_index r.segment_index r.offset table

relocate_entries : List ℕ → ℕ → List TraceEntry → Result TraceError (List RelocatedTraceEntry)
unfolding relocate_trace_register
relocate_entries table base [] = ok []
relocate_entries table base (e ∷ es) = do
  pc ← relocate_trace_register e.pc table
  rest ← relocate_entries table base es
  ok (record { pc = pc; ap = wrapping_add e.ap base; fp = wrapping_add e.fp base } ∷ rest)

module _ {Hint V : Type 0} ⦃F : FeltOps⦄ where
  -- Addresses of the flat memory start at 1.
  unfoldable pub relocate_memory :
      CairoRunner Hint V → List ℕ → Result MemoryError (CairoRunner Hint V)
  unfolding relocate_rows
  relocate_memory r table = elim r.relocated_memory [
    | [] ↦ relocate_rows table 0 r.vm.segments.memory.data_segments (none ∷ []) >>= λ flat.
        ok (record r { relocated_memory = flat })
    | x ∷ xs ↦ err MemoryError.relocation
  ]

  unfoldable pub relocate_trace :
      CairoRunner Hint V → List ℕ → Result TraceError (CairoRunner Hint V)
  unfolding relocate_entries
  relocate_trace r table = elim r.relocated_trace [
    | some t ↦ err TraceError.already_relocated
    | none ↦ ok_or r.vm.trace TraceError.trace_not_enabled >>= λ trace.
        ok_or (get_elem? table 1) TraceError.no_relocation_found >>= λ base.
        relocate_entries table base trace >>= λ entries.
        ok (record r { relocated_trace = some entries })
  ]

  relocate_by : Bool → CairoRunner Hint V → List ℕ → Result TraceError (CairoRunner Hint V)
  unfolding relocate_memory relocate_trace
  relocate_by relocate_mem r table = do
    r₁ ← if relocate_mem then map_err TraceError.memory_error (relocate_memory r table) else ok r
    r₂ ← if is_some r.vm.trace then relocate_trace r₁ table else ok r₁
    ok (record r₂ { vm = record r₂.vm { relocation_table = some table } })

  -- The sizes are known when the table is made: the source expects it to succeed.
  unfoldable pub relocate : CairoRunner Hint V → Bool → Result TraceError (CairoRunner Hint V)
  unfolding compute_effective_sizes relocate_segments relocate_by
  relocate r relocate_mem =
      let sized = record r {
        vm = record r.vm { segments = compute_effective_sizes r.vm.segments };
      } in
      if not relocate_mem && not (is_some r.vm.trace)
      then ok sized
      else map_err (λ e. TraceError.panicked) (relocate_segments sized.vm.segments)
        >>= relocate_by relocate_mem sized
