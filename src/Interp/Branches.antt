-- ===== src/Interp/Branches.antt =====
-- How the opcodes of EvalScript (script.cpp) open and close branches.
pub mod Balance
use mathlib.Core.Option.{some-injective}
use darcoin.Common.{
  ◌≤◌, ◌⊎◌, ℕ, zero, suc, ◌+◌, ◌-◌, ◌≡◌, refl, sym, ap, ◌∙◌, Bool, true, false, not, ◌&&◌, ◌||◌,
  Bool-cases, Option, none, some, inl, inr, List, [], ◌∷◌, ltb, leb, ◌==◌, ==_iff, if◌then◌else◌,
  length, Bytes, arith, subst,
}
use darcoin.Script.{Op, get_op}
use darcoin.Interp.Stack.{Items, run_stack_op}
use darcoin.Interp.Canonical.{Flags}
use darcoin.Interp.Signatures.{Crypto, run_checkmultisig}
use darcoin.Interp.Opcodes.{
  Instr, push_small, nop, else_branch, end_if, verify, ret, to_alt, from_alt, within_range,
  code_separator, unknown, if_branch, on_stack, compare_equal, one_number, two_numbers, hash_top,
  check_one, check_multi, control_instr, stack_instr, numeric_instr, crypto_instr, instr_of,
  is_disabled,
}
use darcoin.Interp.{
  Machine, execute, run_instr, run_if, pop_condition, else_exec, end_exec, move_to_alt,
  move_from_alt, set_stack, set_ops, check_size, count_ops, step, is_executing, start, eval_script,
}
use darcoin.Interp.Rounds.{Rounds, here, round, eval_script_iff-Rounds}

-- The number of open branches after an opcode, whether it is run or not: OP_ELSE and OP_ENDIF want
-- one, and a disabled opcode fails anywhere.
abbrev pub drop_branch : ℕ → Option ℕ
drop_branch zero = none
drop_branch (suc d) = some d

abbrev pub keep_branch : ℕ → Option ℕ
keep_branch zero = none
keep_branch (suc d) = some (suc d)

abbrev pub branch_depth : ℕ → ℕ → Option ℕ
branch_depth c d =
    if is_disabled c
    then none
    else if c == 0x63 || c == 0x64
    then some (suc d)
    else if c == 0x67
    then keep_branch d
    else if c == 0x68
    then drop_branch d
    else some d

-- The opcodes lead from a number of open branches to none.
pub data IsBalanced : ℕ → Bytes → Type 0 where
  closed : IsBalanced 0 []
  then_op :
      {d d' : ℕ}
      → {s : Bytes} → (op : Op) → get_op s ≡ some op
      → branch_depth op.opcode d ≡ some d'
      → IsBalanced d' op.rest
      → IsBalanced d s

unfoldable pub instr_depth : Instr → ℕ → Option ℕ
instr_depth (if_branch negate) d = some (suc d)
instr_depth else_branch d = keep_branch d
instr_depth end_if d = drop_branch d
instr_depth _ d = some d

is_plain : Instr → Bool
is_plain (if_branch negate) = false
is_plain else_branch = false
is_plain end_if = false
is_plain _ = true

control_plain : (c : ℕ) → (leb 0x63 c && leb c 0x68) ≡ false → is_plain (control_instr c) ≡ true
unfolding is_plain
control_plain c h = ground arith

stack_plain : (c : ℕ) → is_plain (stack_instr c) ≡ true
unfolding is_plain
stack_plain c = ground arith

numeric_plain : (c : ℕ) → is_plain (numeric_instr c) ≡ true
unfolding is_plain
numeric_plain c = ground arith

crypto_plain : (c : ℕ) → is_plain (crypto_instr c) ≡ true
unfolding is_plain
crypto_plain c = ground arith

instr_of_plain : (c : ℕ) → (leb 0x63 c && leb c 0x68) ≡ false → is_plain (instr_of c) ≡ true
unfolding instr_of is_plain
instr_of_plain c h =
    ground (arith, control_plain c h, stack_plain c, numeric_plain c, crypto_plain c)

instr_depth_plain : (i : Instr) (d : ℕ) → is_plain i ≡ true → instr_depth i d ≡ some d
unfolding is_plain instr_depth
instr_depth_plain (if_branch negate) d h = cc
instr_depth_plain else_branch d h = cc
instr_depth_plain end_if d h = cc
instr_depth_plain (push_small n) d h = refl
instr_depth_plain nop d h = refl
instr_depth_plain verify d h = refl
instr_depth_plain ret d h = refl
instr_depth_plain to_alt d h = refl
instr_depth_plain from_alt d h = refl
instr_depth_plain (on_stack o) d h = refl
instr_depth_plain (compare_equal v) d h = refl
instr_depth_plain (one_number o) d h = refl
instr_depth_plain (two_numbers o) d h = refl
instr_depth_plain within_range d h = refl
instr_depth_plain (hash_top o) d h = refl
instr_depth_plain code_separator d h = refl
instr_depth_plain (check_one v) d h = refl
instr_depth_plain (check_multi v) d h = refl
instr_depth_plain unknown d h = refl

pub branch_depth_plain :
    (c d : ℕ)
    → is_disabled c ≡ false
    → (leb 0x63 c && leb c 0x68) ≡ false
    → branch_depth c d ≡ some d
branch_depth_plain c d n h = rw n (ground (arith, h))

-- The opcodes from OP_IF to OP_ENDIF.
between :
    (c : ℕ)
    → 0x63 ≤ c
    → c ≤ 0x68
    → (c ≡ 0x63) ⊎ ((c ≡ 0x64) ⊎ ((c ≡ 0x65) ⊎ ((c ≡ 0x66) ⊎ ((c ≡ 0x67) ⊎ (c ≡ 0x68)))))
between c l h = omega (arith, l, h)

branch_instr : (c d : ℕ) → 0x63 ≤ c → c ≤ 0x68 → instr_depth (instr_of c) d ≡ branch_depth c d
unfolding instr_of is_disabled instr_depth
branch_instr c d l h = elim (between c l h) [
  | inl e ↦ rw e refl
  | inr (inl e) ↦ rw e refl
  | inr (inr (inl e)) ↦ rw e refl
  | inr (inr (inr (inl e))) ↦ rw e refl
  | inr (inr (inr (inr (inl e)))) ↦ rw e refl
  | inr (inr (inr (inr (inr e)))) ↦ rw e refl
]

pub instr_of_depth :
    (c d : ℕ) → is_disabled c ≡ false → instr_depth (instr_of c) d ≡ branch_depth c d
instr_of_depth c d n = elim (Bool-cases (leb 0x63 c && leb c 0x68)) [
  | inl y ↦ branch_instr c d (ground (arith, y)) (ground (arith, y))
  | inr h ↦ instr_depth_plain (instr_of c) d (instr_of_plain c h) ∙ sym (branch_depth_plain c d n h)
]
