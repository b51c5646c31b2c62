-- ===== src/Interp.antt =====
-- EvalScript of script.cpp: the stack machine of the script language.
pub mod Stack
pub mod Numeric
pub mod Canonical
pub mod Signatures
pub mod Opcodes
pub mod Verify
pub mod SignatureHash
pub mod SignatureCache
pub mod Bounds
pub mod Rounds
pub mod Branches
pub mod Multisig
pub mod Standard
pub mod KeyHash
use darcoin.Common.{
  ℕ, zero, suc, ◌+◌, ◌-◌, Bool, true, false, not, ◌&&◌, ◌||◌, Option, none, some, List, [], ◌∷◌,
  ltb, leb, ◌==◌, if◌then◌else◌, all, length, Bytes, pos, sub_ℕ,
}
use darcoin.Script.{Op, get_op, with_op}
use darcoin.Script.Num.{serialize, cast_to_bool}
use Stack.{Items, run_stack_op}
use Numeric.{equal, run_unary, run_binary, within}
use Canonical.{Flags}
use Signatures.{Crypto, run_hash, run_checksig, run_checkmultisig}
use Opcodes.{
  Instr, push_small, nop, else_branch, end_if, verify, ret, to_alt, from_alt, within_range,
  code_separator, unknown, if_branch, on_stack, compare_equal, one_number, two_numbers, hash_top,
  check_one, check_multi, instr_of, is_disabled,
}

-- The variables of EvalScript: the stacks and vfExec with their last element first, nOpCount, and the
-- script from pbegincodehash on.
pub record Machine : Type 0 where
  pub stack : Items
  pub altstack : Items
  pub exec : List Bool
  pub op_count : ℕ
  pub code : Bytes

abbrev pub set_stack : Machine → Option Items → Option Machine
set_stack m none = none
set_stack m (some s) = some (record m { stack = s })

abbrev pub set_ops : Machine → Option (ℕ × Items) → Option Machine
set_ops m none = none
set_ops m (some (n, s)) = some (record m { stack = s; op_count = n })

-- !count(vfExec.begin(), vfExec.end(), false)
abbrev pub is_executing : List Bool → Bool
is_executing [] = true
is_executing (b ∷ r) = b && is_executing r

abbrev pub pop_condition : Bool → Machine → Items → Option Machine
pop_condition negate m [] = none
pop_condition negate m (v ∷ s) = some (record m {
  stack = s;
  exec = (if negate then not (cast_to_bool v) else cast_to_bool v) ∷ m.exec;
})

-- OP_IF and OP_NOTIF, where `run` is fExec
unfoldable pub run_if : Bool → Bool → Machine → Option Machine
run_if true negate m = pop_condition negate m m.stack
run_if false negate m = some (record m { exec = false ∷ m.exec })

abbrev pub else_exec : Machine → List Bool → Option Machine
else_exec m [] = none
else_exec m (b ∷ r) = some (record m { exec = not b ∷ r })

abbrev pub end_exec : Machine → List Bool → Option Machine
end_exec m [] = none
end_exec m (b ∷ r) = some (record m { exec = r })

abbrev pub verify_top : Items → Option Items
verify_top [] = none
verify_top (v ∷ s) = if cast_to_bool v then some s else none

abbrev pub move_to_alt : Machine → Items → Option Machine
move_to_alt m [] = none
move_to_alt m (v ∷ s) = some (record m { stack = s; altstack = v ∷ m.altstack })

abbrev pub move_from_alt : Machine → Items → Option Machine
move_from_alt m [] = none
move_from_alt m (v ∷ s) = some (record m { stack = v ∷ m.stack; altstack = s })

-- The switch. `rest` is the script behind the opcode.
unfoldable pub run_instr : Crypto → Flags → Bool → Instr → Bytes → Machine → Option Machine
run_instr c f run (push_small n) rest m =
    some (record m { stack = serialize (sub_ℕ n 0x50) ∷ m.stack })
run_instr c f run nop rest m = some m
run_instr c f run (if_branch negate) rest m = run_if run negate m
run_instr c f run else_branch rest m = else_exec m m.exec
run_instr c f run end_if rest m = end_exec m m.exec
run_instr c f run verify rest m = set_stack m (verify_top m.stack)
run_instr c f run ret rest m = none
run_instr c f run to_alt rest m = move_to_alt m m.stack
run_instr c f run from_alt rest m = move_from_alt m m.altstack
run_instr c f run (on_stack o) rest m = set_stack m (run_stack_op o m.stack)
run_instr c f run (compare_equal v) rest m = set_stack m (equal v m.stack)
run_instr c f run (one_number o) rest m = set_stack m (run_unary o m.stack)
run_instr c f run (two_numbers o) rest m = set_stack m (run_binary o m.stack)
run_instr c f run within_range rest m = set_stack m (within m.stack)
run_instr c f run (hash_top o) rest m = set_stack m (run_hash c o m.stack)
run_instr c f run code_separator rest m = some (record m { code = rest })
run_instr c f run (check_one v) rest m = set_stack m (run_checksig c f v m.code m.stack)
run_instr c f run (check_multi v) rest m =
    set_ops m (run_checkmultisig c f v m.code m.op_count m.stack)
run_instr c f run unknown rest m = none

-- The value is pushed, or the opcode is run, or it stands in a branch that is not taken.
unfoldable pub execute : Crypto → Flags → Op → Machine → Option Machine
execute c f op m =
    if is_executing m.exec && leb op.opcode 0x4e
    then some (record m { stack = op.pushed ∷ m.stack })
    else if is_executing m.exec || (leb 0x63 op.opcode && leb op.opcode 0x68)
    then run_instr c f (is_executing m.exec) (instr_of op.opcode) op.rest m
    else some m

-- stack.size() + altstack.size() > 1000
abbrev pub check_size : Option Machine → Option Machine
check_size none = none
check_size (some m) = if ltb 1000 (length m.stack + length m.altstack) then none else some m

-- The count of the opcodes above OP_16, with the one that was read.
abbrev pub count_ops : Op → Machine → ℕ
count_ops op m = if ltb 0x60 op.opcode then m.op_count + 1 else m.op_count

-- One round of the loop of EvalScript, behind GetOp. MAX_SCRIPT_ELEMENT_SIZE is 520.
unfoldable pub step : Crypto → Flags → Op → Machine → Option Machine
step c f op m =
    if ltb 520 (length op.pushed)
    then none
    else if ltb 0x60 op.opcode && ltb 201 (count_ops op m)
    then none
    else if is_disabled op.opcode
    then none
    else check_size (execute c f op (record m { op_count = count_ops op m }))

-- How the loop ends: behind the script, with `return false`, or not within the rounds that it is given.
pub data Outcome : Type 0 where
  ended : Machine → Outcome
  failed unfinished : Outcome

abbrev pub with_machine : Option Machine → (Machine → Outcome) → Outcome
with_machine none g = failed
with_machine (some m) g = g m

-- The loop, on the script from pc on. GetOp moves pc, so that the length of the script is rounds
-- enough.
unfoldable pub eval_loop : Crypto → Flags → ℕ → Bytes → Machine → Outcome
eval_loop c f fuel [] m = ended m
eval_loop c f zero (b ∷ s) m = unfinished
eval_loop c f (suc fuel) (b ∷ s) m =
    with_op (get_op (b ∷ s)) failed
      (λ op. with_machine (step c f op m) (λ m'. eval_loop c f fuel op.rest m'))

-- if (!vfExec.empty()) return false
abbrev pub finish : Outcome → Option Items
finish unfinished = none
finish failed = none
finish (ended m) = elim m.exec [ [] ↦ some m.stack | b ∷ r ↦ none ]

abbrev pub start : Items → Bytes → Machine
start s script = record { stack = s; altstack = []; exec = []; op_count = 0; code = script }

-- EvalScript: the stack that it leaves where it returns true.
unfoldable pub eval_script : Crypto → Flags → Items → Bytes → Option Items
unfolding eval_loop
eval_script c f s script =
    if ltb 10000 (length script)
    then none
    else finish (eval_loop c f (length script) script (start s script))
