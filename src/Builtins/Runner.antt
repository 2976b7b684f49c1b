-- ===== src/Builtins/Runner.antt =====
-- vm/src/vm/runners/builtin_runner: the state of the runners, and what they take from crates.
use cairo_vm.Base.{ℕ, Bool, Option, List, some, ◌==◌, if◌then◌else◌}
use cairo_vm.Base.Result.{Result}
use cairo_vm.Types.Felt.{Felt}
use cairo_vm.Types.Value.{Relocatable, MaybeRelocatable}
use cairo_vm.Types.BuiltinName.{BuiltinName}
use cairo_vm.Types.Errors.{RunnerError}

-- The fields that the structs of all runners have. A range check and a modular builtin have a ratio
-- with a denominator, a `LowRatio`; the segment arena and the output have no ratio.
pub record Common : Type 0 where
  pub base : ℕ
  pub ratio : Option ℕ
  pub ratio_den : Option ℕ
  pub stop_ptr : Option ℕ
  pub included : Bool

-- A cell that is deduced from the other cells of its instance, read through `Memory::get`.
abbrev pub Deduction : Type 0
Deduction =
    (Relocatable → Option MaybeRelocatable)
    → Relocatable
    → Result RunnerError (Option MaybeRelocatable)

-- The hashes of the crate starknet-types-core, and the deductions of the builtins for elliptic
-- curves and Keccak, which rest on the crates for projective points and for the permutation.
pub record HashOps : Type 0 where
  pub pedersen : Felt → Felt → Felt
  pub hades_permutation : Felt × Felt × Felt → Felt × Felt × Felt
  pub ec_op_deduction : Deduction
  pub keccak_deduction : Deduction

pub data ModBuiltinType : Type 0 where
  add : ModBuiltinType
  mul : ModBuiltinType

-- `BuiltinRunner`. The Pedersen runner records the offsets that it has deduced; the Poseidon runner
-- keeps the felts that it has computed; a range check has a number of 16-bit parts; the segment arena
-- has the offset of its base.
pub data BuiltinRunner : Type 0 where
  bitwise : Common → BuiltinRunner
  ec_op : Common → BuiltinRunner
  hash : Common → List Bool → BuiltinRunner
  output : Common → BuiltinRunner
  range_check : Common → ℕ → BuiltinRunner
  keccak : Common → BuiltinRunner
  signature : Common → BuiltinRunner
  poseidon : Common → List (Relocatable × Felt) → BuiltinRunner
  segment_arena : Common → ℕ → BuiltinRunner
  mod_builtin : Common → ModBuiltinType → BuiltinRunner

abbrev pub common : BuiltinRunner → Common
common (bitwise c) = c
common (ec_op c) = c
common (hash c _) = c
common (output c) = c
common (range_check c _) = c
common (keccak c) = c
common (signature c) = c
common (poseidon c _) = c
common (segment_arena c _) = c
common (mod_builtin c _) = c

unfoldable pub base : BuiltinRunner → ℕ
base b = (common b).base

abbrev pub with_common : BuiltinRunner → Common → BuiltinRunner
with_common (bitwise _) c = bitwise c
with_common (ec_op _) c = ec_op c
with_common (hash _ v) c = hash c v
with_common (output _) c = output c
with_common (range_check _ n) c = range_check c n
with_common (keccak _) c = keccak c
with_common (signature _) c = signature c
with_common (poseidon _ cache) c = poseidon c cache
with_common (segment_arena _ o) c = segment_arena c o
with_common (mod_builtin _ t) c = mod_builtin c t

unfoldable pub set_stop_ptr : BuiltinRunner → ℕ → BuiltinRunner
set_stop_ptr b n = let c = common b in with_common b (record c { stop_ptr = some n })

-- `BuiltinRunner::name`. The runner for 6 parts is the one of the range check of 96 bits.
range_check_name : ℕ → BuiltinName
range_check_name n_parts =
    if n_parts == 6 then BuiltinName.range_check96 else BuiltinName.range_check

mod_name : ModBuiltinType → BuiltinName
mod_name add = BuiltinName.add_mod
mod_name mul = BuiltinName.mul_mod

unfoldable pub name : BuiltinRunner → BuiltinName
unfolding range_check_name mod_name
name (bitwise _) = BuiltinName.bitwise
name (ec_op _) = BuiltinName.ec_op
name (hash _ _) = BuiltinName.pedersen
name (output _) = BuiltinName.output
name (range_check _ n_parts) = range_check_name n_parts
name (keccak _) = BuiltinName.keccak
name (signature _) = BuiltinName.ecdsa
name (poseidon _ _) = BuiltinName.poseidon
name (segment_arena _ _) = BuiltinName.segment_arena
name (mod_builtin _ t) = mod_name t
