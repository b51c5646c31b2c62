-- ===== src/Interp/Opcodes.antt =====
-- The opcodes of script.h, sorted by the cases of the switch in EvalScript (script.cpp).
use darcoin.Common.{ℕ, Bool, true, false, ◌&&◌, ◌||◌, ltb, leb, ◌==◌, if◌then◌else◌}
use darcoin.Interp.Stack.{
  StackOp, op_2drop, op_2dup, op_3dup, op_2over, op_2rot, op_2swap, op_ifdup, op_depth, op_drop,
  op_dup, op_nip, op_over, op_pick, op_roll, op_rot, op_swap, op_tuck, op_size,
}
use darcoin.Interp.Numeric.{
  UnaryOp, op_1add, op_1sub, op_negate, op_abs, op_not, op_0notequal, BinaryOp, op_add, op_sub,
  op_booland, op_boolor, op_numequal, op_numequalverify, op_numnotequal, op_lessthan,
  op_greaterthan, op_lessthanorequal, op_greaterthanorequal, op_min, op_max,
}
use darcoin.Interp.Signatures.{HashOp, op_ripemd160, op_sha1, op_sha256, op_hash160, op_hash256}

-- A flag is set for the variants with VERIFY, and for OP_NOTIF.
pub data Instr : Type 0 where
  push_small : ℕ → Instr
  nop else_branch end_if verify ret to_alt from_alt within_range code_separator unknown : Instr
  if_branch : Bool → Instr
  on_stack : StackOp → Instr
  compare_equal : Bool → Instr
  one_number : UnaryOp → Instr
  two_numbers : BinaryOp → Instr
  hash_top : HashOp → Instr
  check_one : Bool → Instr
  check_multi : Bool → Instr

-- 0x61 to 0x6c
abbrev pub control_instr : ℕ → Instr
control_instr c =
    if c == 0x61
    then nop
    else if c == 0x63
    then if_branch false
    else if c == 0x64
    then if_branch true
    else if c == 0x67
    then else_branch
    else if c == 0x68
    then end_if
    else if c == 0x69
    then verify
    else if c == 0x6a
    then ret
    else if c == 0x6b
    then to_alt
    else if c == 0x6c
    then from_alt
    else unknown

-- 0x6d to 0x82
abbrev pub stack_instr : ℕ → Instr
stack_instr c =
    if c == 0x6d
    then on_stack op_2drop
    else if c == 0x6e
    then on_stack op_2dup
    else if c == 0x6f
    then on_stack op_3dup
    else if c == 0x70
    then on_stack op_2over
    else if c == 0x71
    then on_stack op_2rot
    else if c == 0x72
    then on_stack op_2swap
    else if c == 0x73
    then on_stack op_ifdup
    else if c == 0x74
    then on_stack op_depth
    else if c == 0x75
    then on_stack op_drop
    else if c == 0x76
    then on_stack op_dup
    else if c == 0x77
    then on_stack op_nip
    else if c == 0x78
    then on_stack op_over
    else if c == 0x79
    then on_stack op_pick
    else if c == 0x7a
    then on_stack op_roll
    else if c == 0x7b
    then on_stack op_rot
    else if c == 0x7c
    then on_stack op_swap
    else if c == 0x7d
    then on_stack op_tuck
    else if c == 0x82
    then on_stack op_size
    else unknown

-- 0x83 to 0xa5
abbrev pub numeric_instr : ℕ → Instr
numeric_instr c =
    if c == 0x87
    then compare_equal false
    else if c == 0x88
    then compare_equal true
    else if c == 0x8b
    then one_number op_1add
    else if c == 0x8c
    then one_number op_1sub
    else if c == 0x8f
    then one_number op_negate
    else if c == 0x90
    then one_number op_abs
    else if c == 0x91
    then one_number op_not
    else if c == 0x92
    then one_number op_0notequal
    else if c == 0x93
    then two_numbers op_add
    else if c == 0x94
    then two_numbers op_sub
    else if c == 0x9a
    then two_numbers op_booland
    else if c == 0x9b
    then two_numbers op_boolor
    else if c == 0x9c
    then two_numbers op_numequal
    else if c == 0x9d
    then two_numbers op_numequalverify
    else if c == 0x9e
    then two_numbers op_numnotequal
    else if c == 0x9f
    then two_numbers op_lessthan
    else if c == 0xa0
    then two_numbers op_greaterthan
    else if c == 0xa1
    then two_numbers op_lessthanorequal
    else if c == 0xa2
    then two_numbers op_greaterthanorequal
    else if c == 0xa3
    then two_numbers op_min
    else if c == 0xa4
    then two_numbers op_max
    else if c == 0xa5
    then within_range
    else unknown

-- 0xa6 on
abbrev pub crypto_instr : ℕ → Instr
crypto_instr c =
    if c == 0xa6
    then hash_top op_ripemd160
    else if c == 0xa7
    then hash_top op_sha1
    else if c == 0xa8
    then hash_top op_sha256
    else if c == 0xa9
    then hash_top op_hash160
    else if c == 0xaa
    then hash_top op_hash256
    else if c == 0xab
    then code_separator
    else if c == 0xac
    then check_one false
    else if c == 0xad
    then check_one true
    else if c == 0xae
    then check_multi false
    else if c == 0xaf
    then check_multi true
    else if leb 0xb0 c && leb c 0xb9
    then nop
    else unknown

-- The case of the switch that an opcode takes.
unfoldable pub instr_of : ℕ → Instr
instr_of c =
    if c == 0x4f || (leb 0x51 c && leb c 0x60)
    then push_small c
    else if ltb c 0x61
    then unknown
    else if leb c 0x6c
    then control_instr c
    else if leb c 0x82
    then stack_instr c
    else if leb c 0xa5
    then numeric_instr c
    else crypto_instr c

-- The opcodes that fail wherever they stand.
unfoldable pub is_disabled : ℕ → Bool
is_disabled c =
    (leb 0x7e c && leb c 0x81)
    || ((leb 0x83 c && leb c 0x86) || ((leb 0x8d c && leb c 0x8e) || (leb 0x95 c && leb c 0x99)))
