-- ===== src/Runner/ExecutionResources.antt =====
-- vm/src/vm/runners/cairo_runner.rs: what an execution used, its sums, differences and multiples.
pub mod Sums
use cairo_vm.Base.{
  ℕ, zero, ◌+◌, ◌-◌, ◌*◌, ◌%◌, Bool, true, false, List, [], ◌∷◌, if◌then◌else◌, word, wrapping_add,
  ◌==◌,
}
use cairo_vm.Types.BuiltinName.{BuiltinName, same_name}
use cairo_vm.Runner.Returned.{wrapping_sub}

abbrev pub Counters : Type 0
Counters = List (BuiltinName × ℕ)

-- A map from names as the list of its entries.
pub record ExecutionResources : Type 0 where
  pub n_steps : ℕ
  pub n_memory_holes : ℕ
  pub builtin_instance_counter : Counters

drop_zeros : Counters → Counters
drop_zeros [] = []
drop_zeros ((k, v) ∷ m) = let rest = drop_zeros m in if v == 0 then rest else (k, v) ∷ rest

unfoldable pub filter_unused_builtins : ExecutionResources → ExecutionResources
unfolding drop_zeros
filter_unused_builtins r = record r {
  builtin_instance_counter = drop_zeros r.builtin_instance_counter;
}

-- `entry(k).or_insert(0)`, changed by a function.
unfoldable pub change_entry : (ℕ → ℕ) → Counters → BuiltinName → Counters
unfolding same_name
change_entry f [] k = (k, f 0) ∷ []
change_entry f ((j, w) ∷ m) k =
    let rest = change_entry f m k in if same_name j k then (j, f w) ∷ m else (j, w) ∷ rest

-- Each entry of the second map changes the first.
unfoldable pub merge : (ℕ → ℕ → ℕ) → Counters → Counters → Counters
unfolding change_entry
merge f m [] = m
merge f m ((k, v) ∷ entries) = merge f (change_entry (λ w. f w v) m k) entries

unfoldable pub add_assign : ExecutionResources → ExecutionResources → ExecutionResources
unfolding merge
add_assign a b = record {
  n_steps = wrapping_add a.n_steps b.n_steps;
  n_memory_holes = wrapping_add a.n_memory_holes b.n_memory_holes;
  builtin_instance_counter =
      merge wrapping_add a.builtin_instance_counter b.builtin_instance_counter;
}

-- The counters stop at 0, the other two wrap.
unfoldable pub sub_assign : ExecutionResources → ExecutionResources → ExecutionResources
unfolding merge wrapping_sub
sub_assign a b = record {
  n_steps = wrapping_sub a.n_steps b.n_steps;
  n_memory_holes = wrapping_sub a.n_memory_holes b.n_memory_holes;
  builtin_instance_counter =
      merge (λ v w. v - w) a.builtin_instance_counter b.builtin_instance_counter;
}

times : ℕ → Counters → Counters
times n [] = []
times n ((k, v) ∷ m) = (k, v * n % word) ∷ times n m

unfoldable pub mul_assign : ExecutionResources → ℕ → ExecutionResources
unfolding times
mul_assign a n = record {
  n_steps = a.n_steps * n % word;
  n_memory_holes = a.n_memory_holes * n % word;
  builtin_instance_counter = times n a.builtin_instance_counter;
}
