-- ===== src/Memory/Valid.antt =====
-- The invariant of `Memory` of vm/src/vm/vm_memory/memory.rs: what is stored, and what a
-- relocation rule names, fits the words that it is packed into.
use cairo_vm.Base.{
  [], refl, ℕ, ◌+◌, ◌≡◌, sym, ◌∙◌, some, arith, ltb, ltb→lt, Bool-cases, Option-cases, inl, inr,
  word, subst,
}
use cairo_vm.Base.Int.{ℤ, pos, negsuc}
use cairo_vm.Base.Result.{ok, and_then-eq-some, >>=-eq-ok}
use cairo_vm.Types.Felt.{FeltOps}
use cairo_vm.Types.Value.{
  Relocatable, rel, MaybeRelocatable, relocatable_value, int, IsValue, IsRelocatable, eqb_rel,
  eqb_rel_iff,
}
use cairo_vm.Types.Relocatable.{add_offset}
use cairo_vm.Memory.Store.{
  Memory, RelocationRules, find_rule, value_at, relocate_address, relocate_value, get, insert,
}
use cairo_vm.Memory.Insert.{insert-Inserted}
use cairo_vm.Memory.WriteOnce.{insert-Updated, rules-Inserted}

abbrev pub RulesValid : RelocationRules → Type 0
RulesValid rules = (k : ℕ) (base : Relocatable) → find_rule rules k ≡ some base → IsRelocatable base

module _ ⦃F : FeltOps⦄ where
  pub record IsValid (m : Memory) : Type 0 where
    pub stored : (r : Relocatable) (w : MaybeRelocatable) → value_at m r ≡ some w → IsValue w
    pub rules : RulesValid m.relocation_rules

  -- `insert` of a value that fits its cell keeps the memory valid.
  pub insert-IsValid :
      (m m' : Memory) (k : Relocatable) (v : MaybeRelocatable)
      → IsValid m
      → IsValue v
      → insert m k v ≡ ok m'
      → IsValid m'
  insert-IsValid m m' k v valid hv h =
      let u = insert-Updated m m' k v hv h in
      record {
        stored = λ r w e. elim (Bool-cases (eqb_rel r k)) [
          | inl same ↦
              let p : r ≡ k = (eqb_rel_iff r k).0 same in
              let q : v ≡ w = cc (u.here, p, e) in subst IsValue q hv
          | inr other ↦
              valid.stored r w
                (sym (u.elsewhere r (λ p. cc (sym other ∙ (eqb_rel_iff r k).1 p))) ∙ e)
        ];
        rules = subst RulesValid (sym (rules-Inserted (insert-Inserted m m' k v h))) valid.rules;
      }

pub add_offset-IsRelocatable :
    (base : Relocatable) (n : ℕ) (r : Relocatable)
    → IsRelocatable base
    → add_offset base n ≡ ok r
    → IsRelocatable r
unfolding add_offset
add_offset-IsRelocatable base n r h e = elim (Bool-cases (ltb (base.offset + n) word)) [
  | inl fits ↦
      let p : rel base.segment_index (base.offset + n) ≡ r = ground arith in
      subst IsRelocatable p (record { segment = h.segment; offset = ltb→lt _ _ fits })
  | inr over ↦ ground arith
]

relocate_rel-IsRelocatable :
    (rules : RelocationRules) (s : ℤ) (o : ℕ) (r : Relocatable)
    → RulesValid rules
    → IsRelocatable (rel s o)
    → relocate_address rules (rel s o) ≡ ok r
    → IsRelocatable r
unfolding relocate_address
relocate_rel-IsRelocatable rules (pos n) o r hr h e =
    let p : rel (pos n) o ≡ r = ground arith in subst IsRelocatable p h
relocate_rel-IsRelocatable rules (negsuc n) o r hr h e = elim (Option-cases (find_rule rules n)) [
  | inl gone ↦ let p : rel (negsuc n) o ≡ r = ground arith in subst IsRelocatable p h
  | inr (base, found) ↦ add_offset-IsRelocatable base o r (hr n base found) (ground arith)
]

pub relocate_value-IsValue :
    (rules : RelocationRules) (v w : MaybeRelocatable)
    → RulesValid rules
    → IsValue v
    → relocate_value rules v ≡ ok w
    → IsValue w
unfolding relocate_value
relocate_value-IsValue rules (int x) w hr h e =
    let p : int x ≡ w = ground arith in subst IsValue p h
relocate_value-IsValue rules (relocatable_value r) w hr h e =
    let (r', e', q) = >>=-eq-ok (relocate_address rules r) _ e in
    let p : relocatable_value r' ≡ w = cc in
    subst IsValue p (relocate_rel-IsRelocatable rules r.segment_index r.offset r' hr h e')

relocate_value-no_rules : (v : MaybeRelocatable) → relocate_value [] v ≡ ok v
unfolding relocate_value relocate_address find_rule
relocate_value-no_rules (int x) = refl
relocate_value-no_rules (relocatable_value r) = no_rule r.segment_index r.offset
  where
    no_rule :
        (s : ℤ) (o : ℕ)
        → relocate_value [] (relocatable_value (rel s o)) ≡ ok (relocatable_value (rel s o))
    no_rule (pos n) o = refl
    no_rule (negsuc n) o = refl

module _ ⦃F : FeltOps⦄ where
  -- What `get` reads from a valid memory fits its cell.
  pub get-IsValue :
      (m : Memory) (r : Relocatable) (w : MaybeRelocatable)
      → IsValid m
      → get m r ≡ some w
      → IsValue w
  unfolding get
  get-IsValue m r w valid h =
      let (raw, e, moved) = and_then-eq-some (value_at m r) _ h in
      relocate_value-IsValue m.relocation_rules raw w valid.rules (valid.stored r raw e)
        (ground arith)

  -- Without relocation rules a stored value reads as it is.
  pub get-no_rules :
      (m : Memory) (r : Relocatable) (v : MaybeRelocatable)
      → m.relocation_rules ≡ []
      → value_at m r ≡ some v
      → get m r ≡ some v
  unfolding get
  get-no_rules m r v h e = rw (e, h, relocate_value-no_rules v)
