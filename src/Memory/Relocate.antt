-- ===== src/Memory/Relocate.antt =====
-- vm/src/vm/vm_memory/memory.rs, `relocate_memory`: temporary segments are moved into real ones.
use cairo_vm.Base.{
  ℕ, zero, suc, ◌≡◌, refl, sym, ap, ◌∙◌, Bool, true, false, ◌||◌, Option, none, some, List, [], ◌∷◌,
  if◌then◌else◌, length, get_elem?,
}
use cairo_vm.Base.Int.{ℤ, pos, negsuc}
use cairo_vm.Base.Result.{
  Result, ok, ok-injective, ◌>>=◌, map_err, to_option, and_then, bind-ok-elim,
}
use cairo_vm.Types.Felt.{FeltOps}
use cairo_vm.Types.Value.{Relocatable, rel, MaybeRelocatable, relocatable_value, int, IsValue}
use cairo_vm.Types.Errors.{MemoryError}
use cairo_vm.Types.Relocatable.{add_offset}
use cairo_vm.Memory.Cell.{
  MemoryCell, new, get_value, is_accessed, mark_accessed, get_value-new, get_value-mark_accessed,
}
use cairo_vm.Memory.Store.{
  Memory, Segment, RelocationRules, find_rule, relocate_address, relocate_value, insert,
  mark_as_accessed,
}
use cairo_vm.Memory.Valid.{RulesValid, relocate_value-IsValue}

-- `Vec::remove`
abbrev pub remove_at {ℓ} : {A : Type ℓ} → List A → ℕ → List A
remove_at [] i = []
remove_at (x ∷ xs) zero = xs
remove_at (x ∷ xs) (suc i) = x ∷ remove_at xs i

abbrev pub is_empty {ℓ} : {A : Type ℓ} → List A → Bool
is_empty [] = true
is_empty (x ∷ xs) = false

module _ ⦃F : FeltOps⦄ where
  abbrev mark_if : Bool → MemoryCell → MemoryCell
  mark_if true c = mark_accessed c
  mark_if false c = c

  -- A cell that holds a temporary address takes the relocated one and keeps its access mark.
  abbrev relocate_value_of :
      RelocationRules → MemoryCell → Option MaybeRelocatable → Result MemoryError MemoryCell
  relocate_value_of rules c none = ok c
  relocate_value_of rules c (some (int x)) = ok c
  relocate_value_of rules c (some (relocatable_value r)) = elim r.segment_index [
    | pos n ↦ ok c
    | negsuc n ↦ relocate_address rules r >>= λ moved.
        ok (mark_if (is_accessed c) (new (relocatable_value moved)))
  ]

  unfoldable pub relocate_cell : RelocationRules → MemoryCell → Result MemoryError MemoryCell
  unfolding relocate_address get_value new mark_accessed is_accessed
  relocate_cell rules c = relocate_value_of rules c (get_value c)

  unfoldable pub relocate_cells : RelocationRules → Segment → Result MemoryError Segment
  unfolding relocate_cell
  relocate_cells rules [] = ok []
  relocate_cells rules (c ∷ cs) = do
    c' ← relocate_cell rules c
    cs' ← relocate_cells rules cs
    ok (c' ∷ cs')

  unfoldable pub relocate_rows : RelocationRules → List Segment → Result MemoryError (List Segment)
  unfolding relocate_cells
  relocate_rows rules [] = ok []
  relocate_rows rules (s ∷ ss) = do
    s' ← relocate_cells rules s
    ss' ← relocate_rows rules ss
    ok (s' ∷ ss')

  abbrev pub insert_cell :
      Memory → Relocatable → MemoryCell → Option MaybeRelocatable → Result MemoryError Memory
  insert_cell m addr c none = ok m
  insert_cell m addr c (some v) =
      insert m addr v >>= λ m'. ok (if is_accessed c then mark_as_accessed m' addr else m')

  -- The cells of one temporary segment, inserted from `addr` on.
  unfoldable pub move_cells : Memory → Relocatable → Segment → Result MemoryError Memory
  unfolding insert mark_as_accessed get_value is_accessed add_offset
  move_cells m addr [] = ok m
  move_cells m addr (c ∷ cs) = do
    m' ← insert_cell m addr c (get_value c)
    next ← map_err MemoryError.math (add_offset addr 1)
    move_cells m' next cs

  abbrev pub move_segment :
      Memory → ℕ → Option Relocatable → Option Segment → Result MemoryError Memory
  move_segment m i none segment = ok m
  move_segment m i (some base) none = ok m
  move_segment m i (some base) (some segment) =
      move_cells (record m { temp_data = remove_at m.temp_data i }) base segment

  -- From the last of the first `n` temporary segments down to the first.
  unfoldable pub move_segments : ℕ → Memory → Result MemoryError Memory
  unfolding move_cells find_rule
  move_segments zero m = ok m
  move_segments (suc i) m = do
    m' ← move_segment m i (find_rule m.relocation_rules i) (get_elem? m.temp_data i)
    move_segments i m'

  abbrev pub relocate_all : Memory → Result MemoryError Memory
  relocate_all m = do
    rows ← relocate_rows m.relocation_rules m.data_segments
    temp ← relocate_rows m.relocation_rules m.temp_data
    m' ← move_segments (length m.temp_data) (record m { data_segments = rows; temp_data = temp })
    ok (record m' { relocation_rules = [] })

  -- `Memory::relocate_memory`
  unfoldable pub relocate_memory : Memory → Result MemoryError Memory
  unfolding relocate_rows move_segments
  relocate_memory m =
      if is_empty m.relocation_rules || is_empty m.temp_data then ok m else relocate_all m

  -- What a cell holds, read through the rules.
  abbrev pub read_through : RelocationRules → Option MaybeRelocatable → Option MaybeRelocatable
  read_through rules v = and_then v (λ w. to_option (relocate_value rules w))

  get_value-mark_if : (b : Bool) (c : MemoryCell) → get_value (mark_if b c) ≡ get_value c
  get_value-mark_if true c = get_value-mark_accessed c
  get_value-mark_if false c = refl

  relocate_value-real :
      (rules : RelocationRules) (n o : ℕ)
      → relocate_value rules (relocatable_value (rel (pos n) o))
        ≡ ok (relocatable_value (rel (pos n) o))
  unfolding relocate_value relocate_address
  relocate_value-real rules n o = refl

  relocate_value_of-address :
      (rules : RelocationRules) (c c' : MemoryCell) (s : ℤ) (o : ℕ)
      → RulesValid rules
      → IsValue (relocatable_value (rel s o))
      → get_value c ≡ some (relocatable_value (rel s o))
      → relocate_value_of rules c (some (relocatable_value (rel s o))) ≡ ok c'
      → get_value c' ≡ to_option (relocate_value rules (relocatable_value (rel s o)))
  unfolding relocate_value
  relocate_value_of-address rules c c' (pos n) o hr fits e h =
      ap get_value (sym (ok-injective h)) ∙ e ∙ ap to_option (sym (relocate_value-real rules n o))
  relocate_value_of-address rules c c' (negsuc n) o hr fits e h =
      bind-ok-elim (relocate_address rules (rel (negsuc n) o)) _ h λ moved e₁ h₁.
        let p : relocate_value rules (relocatable_value (rel (negsuc n) o))
            ≡ ok (relocatable_value moved) =
          rw e₁ in
        ap get_value (sym (ok-injective h₁))
        ∙ get_value-mark_if (is_accessed c) (new (relocatable_value moved))
        ∙ get_value-new (relocatable_value moved) (
            relocate_value-IsValue rules (relocatable_value (rel (negsuc n) o))
              (relocatable_value moved) hr fits p)
        ∙ ap to_option (sym p)

  relocate_value_of-value :
      (rules : RelocationRules) (c c' : MemoryCell) (v : Option MaybeRelocatable)
      → RulesValid rules
      → ((w : MaybeRelocatable) → v ≡ some w → IsValue w)
      → get_value c ≡ v
      → relocate_value_of rules c v ≡ ok c'
      → get_value c' ≡ read_through rules v
  unfolding relocate_value
  relocate_value_of-value rules c c' none hr hv e h = ap get_value (sym (ok-injective h)) ∙ e
  relocate_value_of-value rules c c' (some (int x)) hr hv e h =
      ap get_value (sym (ok-injective h)) ∙ e
  relocate_value_of-value rules c c' (some (relocatable_value r)) hr hv e h =
      relocate_value_of-address rules c c' r.segment_index r.offset hr
        (hv (relocatable_value r) refl) e h

  abbrev pub value_in : Segment → ℕ → Option MaybeRelocatable
  value_in s j = and_then (get_elem? s j) get_value

  abbrev pub value_of : List Segment → ℕ → ℕ → Option MaybeRelocatable
  value_of ss i j = and_then (and_then (get_elem? ss i) (λ s. get_elem? s j)) get_value

  relocate_cells-value :
      (rules : RelocationRules) (s s' : Segment) (j : ℕ)
      → RulesValid rules
      → ((w : MaybeRelocatable) → value_in s j ≡ some w → IsValue w)
      → relocate_cells rules s ≡ ok s'
      → value_in s' j ≡ read_through rules (value_in s j)
  unfolding relocate_cells relocate_cell
  relocate_cells-value rules [] s' j hr hv h = ap (λ x. value_in x j) (sym (ok-injective h))
  relocate_cells-value rules (c ∷ cs) s' zero hr hv h =
      bind-ok-elim (relocate_cell rules c) _ h λ c' e₁ h₁.
        bind-ok-elim (relocate_cells rules cs) _ h₁ λ cs' e₂ h₂.
          ap (λ x. value_in x 0) (sym (ok-injective h₂))
          ∙ relocate_value_of-value rules c c' (get_value c) hr hv refl e₁
  relocate_cells-value rules (c ∷ cs) s' (suc j) hr hv h =
      bind-ok-elim (relocate_cell rules c) _ h λ c' e₁ h₁.
        bind-ok-elim (relocate_cells rules cs) _ h₁ λ cs' e₂ h₂.
          ap (λ x. value_in x (suc j)) (sym (ok-injective h₂))
          ∙ relocate_cells-value rules cs cs' j hr hv e₂

  -- After the addresses in a list of segments are relocated, each cell holds what it read as
  -- through the relocation rules before. The rules are valid, and what the cells hold fits them.
  pub relocate_rows-value :
      (rules : RelocationRules) (ss ss' : List Segment) (i j : ℕ)
      → RulesValid rules
      → ((w : MaybeRelocatable) → value_of ss i j ≡ some w → IsValue w)
      → relocate_rows rules ss ≡ ok ss'
      → value_of ss' i j ≡ read_through rules (value_of ss i j)
  unfolding relocate_rows
  relocate_rows-value rules [] ss' i j hr hv h = ap (λ x. value_of x i j) (sym (ok-injective h))
  relocate_rows-value rules (s ∷ ss) ss' zero j hr hv h =
      bind-ok-elim (relocate_cells rules s) _ h λ s' e₁ h₁.
        bind-ok-elim (relocate_rows rules ss) _ h₁ λ rest e₂ h₂.
          ap (λ x. value_of x 0 j) (sym (ok-injective h₂))
          ∙ relocate_cells-value rules s s' j hr hv e₁
  relocate_rows-value rules (s ∷ ss) ss' (suc i) j hr hv h =
      bind-ok-elim (relocate_cells rules s) _ h λ s' e₁ h₁.
        bind-ok-elim (relocate_rows rules ss) _ h₁ λ rest e₂ h₂.
          ap (λ x. value_of x (suc i) j) (sym (ok-injective h₂))
          ∙ relocate_rows-value rules ss rest i j hr hv e₂
