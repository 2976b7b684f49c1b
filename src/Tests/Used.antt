-- ===== src/Tests/Used.antt =====
-- Resources of two executions.
use cairo_vm.Base.{◌+◌, ◌≤◌, ◌<◌, ◌≡◌, refl, [], ◌∷◌, arith, word, false}
use cairo_vm.Types.BuiltinName.{BuiltinName, same_name}
use cairo_vm.Runner.ExecutionResources.{
  ExecutionResources, add_assign, sub_assign, mul_assign, filter_unused_builtins,
}
use cairo_vm.Runner.ExecutionResources.Sums.{count, has, SameResources, sub_assign-add_assign}

abbrev before : ExecutionResources
before = record {
  n_steps = 100;
  n_memory_holes = 2;
  builtin_instance_counter = (BuiltinName.output, 3) ∷ [];
}

abbrev call : ExecutionResources
call = record {
  n_steps = 20;
  n_memory_holes = 0;
  builtin_instance_counter = (BuiltinName.output, 1) ∷ (BuiltinName.bitwise, 4) ∷ [];
}

together : add_assign before call ≡ record {
  n_steps = 120;
  n_memory_holes = 2;
  builtin_instance_counter = (BuiltinName.output, 4) ∷ (BuiltinName.bitwise, 4) ∷ [];
}
unfolding add_assign same_name
together = refl

-- A counter that falls to 0 stays, until the unused builtins are left out.
left_out :
    (filter_unused_builtins (sub_assign (add_assign before call) call)).builtin_instance_counter
    ≡ (BuiltinName.output, 3) ∷ []
unfolding add_assign sub_assign filter_unused_builtins same_name
left_out = refl

twice :
    (mul_assign call 2).builtin_instance_counter
    ≡ (BuiltinName.output, 2) ∷ (BuiltinName.bitwise, 8) ∷ []
unfolding mul_assign
twice = refl

count_before : (n : BuiltinName) → count before.builtin_instance_counter n ≤ 3
unfolding count
count_before n = ground arith

count_call : (n : BuiltinName) → count call.builtin_instance_counter n ≤ 4
unfolding count
count_call n = ground arith

count-lt :
    (n : BuiltinName)
    → count before.builtin_instance_counter n + count call.builtin_instance_counter n < word
count-lt n = omega (arith, count_before n, count_call n)

call-has : has ((BuiltinName.bitwise, 4) ∷ []) BuiltinName.output ≡ false
unfolding has same_name
call-has = refl

nothing-has : has [] BuiltinName.bitwise ≡ false
unfolding has
nothing-has = refl

sub_assign-add_assign_example : SameResources (sub_assign (add_assign before call) call) before
sub_assign-add_assign_example =
    sub_assign-add_assign before call (call-has, (nothing-has, tt)) (omega arith) (omega arith)
      count-lt
