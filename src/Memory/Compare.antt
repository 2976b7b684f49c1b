-- ===== src/Memory/Compare.antt =====
-- vm/src/vm/vm_memory/memory.rs: `memcmp`, which compares ranges of raw cells.
pub mod Values
use Prim.Native.Nat.{compare, Ordering}
use cairo_vm.Base.{
  ℕ, zero, suc, ◌+◌, ◌<◌, ◌≡◌, ◌≢◌, refl, sym, ap, ◌∙◌, Option, none, some, arith, ◌==◌, get_elem?,
  wrapping_add, ◌≤◌, ◌⊎◌, inl, inr, Bool-cases, subst,
}
use cairo_vm.Types.Felt.{Words}
use cairo_vm.Types.Value.{Relocatable}
use cairo_vm.Memory.Cell.{MemoryCell, cell}
use cairo_vm.Memory.Store.{Memory, Segment, segments_of, segment_key}

-- The derived order of `[u64; 4]`: the first word that differs decides.
abbrev then_cmp : Ordering → Ordering → Ordering
then_cmp Ordering.eq rest = rest
then_cmp Ordering.lt rest = Ordering.lt
then_cmp Ordering.gt rest = Ordering.gt

abbrev cmp_words : Words → Words → Ordering
cmp_words a b =
    then_cmp (compare a.w0 b.w0)
      (then_cmp (compare a.w1 b.w1) (then_cmp (compare a.w2 b.w2) (compare a.w3 b.w3)))

-- The derived order of `Option<&MemoryCell>`: a missing cell comes first.
abbrev pub cmp_cells : Option MemoryCell → Option MemoryCell → Ordering
cmp_cells none none = Ordering.eq
cmp_cells none (some b) = Ordering.lt
cmp_cells (some a) none = Ordering.gt
cmp_cells (some a) (some b) = cmp_words a.raw b.raw

abbrev decide : Ordering → ℕ → Ordering × ℕ → Ordering × ℕ
decide Ordering.eq i rest = rest
decide Ordering.lt i rest = (Ordering.lt, i)
decide Ordering.gt i rest = (Ordering.gt, i)

-- The loop of `memcmp` from position `i` on, with `n` positions left.
unfoldable pub compare_from : Segment → Segment → ℕ → ℕ → ℕ → ℕ → Ordering × ℕ
compare_from ls rs lhs rhs i zero = (Ordering.eq, i)
compare_from ls rs lhs rhs i (suc n) =
    decide (cmp_cells (get_elem? ls (wrapping_add lhs i)) (get_elem? rs (wrapping_add rhs i))) i
      (compare_from ls rs lhs rhs (suc i) n)

abbrev segment_of : Memory → Relocatable → Option Segment
segment_of m r = get_elem? (segments_of m r.segment_index) (segment_key r.segment_index)

abbrev compare_segments : Option Segment → Option Segment → ℕ → ℕ → ℕ → Ordering × ℕ
compare_segments none none lhs rhs len = (Ordering.eq, 0)
compare_segments (some ls) none lhs rhs len = (Ordering.gt, 0)
compare_segments none (some rs) lhs rhs len = (Ordering.lt, 0)
compare_segments (some ls) (some rs) lhs rhs len = compare_from ls rs lhs rhs 0 len

unfoldable pub memcmp : Memory → Relocatable → Relocatable → ℕ → Ordering × ℕ
unfolding compare_from
memcmp m lhs rhs len =
    compare_segments (segment_of m lhs) (segment_of m rhs) lhs.offset rhs.offset len

cmp_words-eq : (a b : Words) → cmp_words a b ≡ Ordering.eq → a ≡ b
cmp_words-eq a b h = ground arith

cmp_cells-eq : (a b : Option MemoryCell) → cmp_cells a b ≡ Ordering.eq → a ≡ b
cmp_cells-eq none none h = refl
cmp_cells-eq none (some b) h = cc h
cmp_cells-eq (some a) none h = cc h
cmp_cells-eq (some a) (some b) h = ap (λ w. some (cell w)) (cmp_words-eq a.raw b.raw h)

pub cmp_cells_refl : (a : Option MemoryCell) → cmp_cells a a ≡ Ordering.eq
cmp_cells_refl none = refl
cmp_cells_refl (some a) = ground arith

module _ (ls rs : Segment) (lhs rhs : ℕ) where
  abbrev pub left : ℕ → Option MemoryCell
  left k = get_elem? ls (wrapping_add lhs k)

  abbrev pub right : ℕ → Option MemoryCell
  right k = get_elem? rs (wrapping_add rhs k)

  -- From `i` on: the cells agree before the position `at`, and there they are in the order
  -- `order`, or the whole range agrees.
  pub record Verdict (i end : ℕ) (order : Ordering) (place : ℕ) : Type 0 where
    pub from : i ≤ place
    pub before : (k : ℕ) → i ≤ k → k < place → left k ≡ right k
    pub decided :
        ((order ≡ Ordering.eq) × (place ≡ end))
        ⊎ ((cmp_cells (left place) (right place) ≡ order) × (order ≢ Ordering.eq) × (place < end))

  Verdict-later :
      (i n : ℕ) (order : Ordering) (place : ℕ)
      → cmp_cells (left i) (right i) ≡ Ordering.eq
      → Verdict (suc i) (suc i + n) order place
      → Verdict i (i + suc n) order place
  Verdict-later i n order place same v =
      let p : suc i + n ≡ i + suc n = omega arith in
      record {
        from = omega (arith, v.from);
        before = λ k lo hi. elim (Bool-cases (i == k)) [
          | inl here ↦
              let q : i ≡ k = ground arith in
              ap left (sym q) ∙ cmp_cells-eq (left i) (right i) same ∙ ap right q
          | inr past ↦ v.before k (ground arith) hi
        ];
        decided = elim v.decided [
          | inl (e, f) ↦ inl (e, f ∙ p)
          | inr (e, f, g) ↦ inr (e, f, omega (arith, g))
        ];
      }

  decide-Verdict :
      (i n : ℕ) (o : Ordering) (rest : Ordering × ℕ)
      → cmp_cells (left i) (right i) ≡ o
      → Verdict (suc i) (suc i + n) rest.0 rest.1
      → let r = decide o i rest in Verdict i (i + suc n) r.0 r.1
  decide-Verdict i n Ordering.eq rest e v = Verdict-later i n rest.0 rest.1 e v
  decide-Verdict i n Ordering.lt rest e v = record {
    from = omega arith;
    before = λ k lo hi. absurd (omega arith);
    decided = inr (e, (λ q. cc q), omega arith);
  }
  decide-Verdict i n Ordering.gt rest e v = record {
    from = omega arith;
    before = λ k lo hi. absurd (omega arith);
    decided = inr (e, (λ q. cc q), omega arith);
  }

  compare_from-Verdict :
      (i n : ℕ) → let r = compare_from ls rs lhs rhs i n in Verdict i (i + n) r.0 r.1
  unfolding compare_from
  compare_from-Verdict i zero = record {
    from = omega arith;
    before = λ k lo hi. absurd (omega arith);
    decided = inl (refl, omega arith);
  }
  compare_from-Verdict i (suc n) =
      decide-Verdict i n (cmp_cells (left i) (right i)) (compare_from ls rs lhs rhs (suc i) n) refl
        (compare_from-Verdict (suc i) n)

-- Of two ranges in segments that exist, `memcmp` returns the first position where the cells
-- differ, with their order there, or `Equal` and the length if they agree throughout.
pub memcmp-Verdict :
    (m : Memory) (lhs rhs : Relocatable) (len : ℕ) (ls rs : Segment)
    → get_elem? (segments_of m lhs.segment_index) (segment_key lhs.segment_index) ≡ some ls
    → get_elem? (segments_of m rhs.segment_index) (segment_key rhs.segment_index) ≡ some rs
    → Verdict ls rs lhs.offset rhs.offset 0 len (memcmp m lhs rhs len).0 (memcmp m lhs rhs len).1
unfolding memcmp
memcmp-Verdict m lhs rhs len ls rs el er =
    let p : 0 + len ≡ len = omega arith in
    let r = compare_from ls rs lhs.offset rhs.offset 0 len in
    rw (el, er)
      (subst (λ e. Verdict ls rs lhs.offset rhs.offset 0 e r.0 r.1) p
        (compare_from-Verdict ls rs lhs.offset rhs.offset 0 len))
