-- ===== src/Types/BuiltinName.antt =====
-- vm/src/types/builtin_name.rs: the names of the builtins.
use cairo_vm.Base.{ℕ, Bool, ◌==◌}

pub data BuiltinName : Type 0 where
  output : BuiltinName
  range_check : BuiltinName
  pedersen : BuiltinName
  ecdsa : BuiltinName
  keccak : BuiltinName
  bitwise : BuiltinName
  ec_op : BuiltinName
  poseidon : BuiltinName
  segment_arena : BuiltinName
  range_check96 : BuiltinName
  add_mod : BuiltinName
  mul_mod : BuiltinName

abbrev position : BuiltinName → ℕ
position output = 0
position range_check = 1
position pedersen = 2
position ecdsa = 3
position keccak = 4
position bitwise = 5
position ec_op = 6
position poseidon = 7
position segment_arena = 8
position range_check96 = 9
position add_mod = 10
position mul_mod = 11

-- The derived `==`.
unfoldable pub same_name : BuiltinName → BuiltinName → Bool
same_name a b = position a == position b
