-- ===== src/Runner/Resources.antt =====
-- vm/src/vm/runners/cairo_runner.rs: the steps that are left for a run.
use cairo_vm.Base.{ℕ, zero, suc, ◌-◌, Bool, true, false, Option, none, some}

pub record RunResources : Type 0 where
  pub n_steps : Option ℕ

abbrev pub limited : Option ℕ → RunResources
limited n = record { n_steps = n }

-- `RunResources::new`
pub new_resources : ℕ → RunResources
new_resources n = limited (some n)

is_zero_left : Option ℕ → Bool
is_zero_left (some zero) = true
is_zero_left (some (suc n)) = false
is_zero_left none = false

unfoldable pub consumed : RunResources → Bool
unfolding is_zero_left
consumed r = is_zero_left r.n_steps

one_less : Option ℕ → Option ℕ
one_less none = none
one_less (some n) = some (n - 1)

unfoldable pub consume_step : RunResources → RunResources
unfolding one_less
consume_step r = limited (one_less r.n_steps)
