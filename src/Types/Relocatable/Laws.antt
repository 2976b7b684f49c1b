-- ===== src/Types/Relocatable/Laws.antt =====
-- Arithmetic laws of vm/src/types/relocatable.rs.
use cairo_vm.Base.{ℕ, ◌+◌, ◌-◌, ◌%◌, ◌<◌, ◌≡◌, arith, inl, inr, leb, lt→ltb, Bool-cases, word}
use cairo_vm.Base.Int.{eqb_ℤ_iff, sub_ℕ}
use cairo_vm.Base.Result.{ok}
use cairo_vm.Types.Felt.{FeltOps, cairo_prime}
use cairo_vm.Types.Value.{Relocatable, rel, MaybeRelocatable, relocatable_value, int, IsValue}
use cairo_vm.Types.Relocatable.{add_felt, add, sub}

mod_back :
    (x y : ℕ)
    → x < cairo_prime
    → y < cairo_prime
    → ((x + (cairo_prime - y)) % cairo_prime + y) % cairo_prime ≡ x
mod_back x y hx hy = omega arith

module _ ⦃F : FeltOps⦄ where
  add_felt-eq_of_sum :
      (r : Relocatable) (x n : ℕ)
      → n < word
      → (r.offset + x) % cairo_prime ≡ n
      → add_felt r x ≡ ok (rel r.segment_index n)
  unfolding add_felt
  add_felt-eq_of_sum r x n h e = rw (F.u64_add_lem r.offset x, e, lt→ltb n word h)

  from_diff : (a b : ℕ) → a < word → b < word → (b + F.from_i128 (sub_ℕ a b)) % cairo_prime ≡ a
  from_diff a b ha hb = elim (Bool-cases (leb b a)) [
    | inl le ↦ rw (le, F.from_pos_lem (a - b)) (ground arith)
    | inr lt ↦ rw (lt, F.from_negsuc_lem (b - a - 1) (ground arith)) (ground arith)
  ]

  -- A difference that `sub` returns, added back, gives the value it was taken from.
  pub add-sub : (v w d : MaybeRelocatable) → IsValue v → IsValue w → sub v w ≡ ok d → add d w ≡ ok v
  unfolding sub add
  add-sub (int x) (int y) d hx hy e = ground (
    arith,
    mod_back x y hx hy,
    F.sub_lem x y hy,
    F.add_lem ((x + (cairo_prime - y)) % cairo_prime) y,
  )
  add-sub (relocatable_value a) (relocatable_value b) d ha hb e = ground (
    arith,
    eqb_ℤ_iff a.segment_index b.segment_index,
    add_felt-eq_of_sum b (F.from_i128 (sub_ℕ a.offset b.offset)) a.offset ha.offset
        (from_diff a.offset b.offset ha.offset hb.offset),
  )
  add-sub (relocatable_value a) (int x) d ha hx e = ground (
    arith,
    mod_back a.offset x (omega arith) hx,
    F.u64_sub_lem a.offset x hx,
    add_felt-eq_of_sum (rel a.segment_index ((a.offset + (cairo_prime - x)) % cairo_prime)) x
        a.offset ha.offset,
  )
  add-sub (int x) (relocatable_value r) d hx hr e = cc
