-- ===== src/Interp/Branches/Balance.antt =====
-- The branches of a script that EvalScript (script.cpp) accepts.
use darcoin.Common.{
  ℕ, suc, ◌+◌, ◌≡◌, refl, Bool, true, false, ◌&&◌, ◌||◌, Bool-cases, Option, none, some, inl, inr,
  List, [], ◌∷◌, ltb, leb, length, Bytes, arith, subst,
}
use darcoin.Script.{Op}
use darcoin.Interp.Stack.{Items}
use darcoin.Interp.Canonical.{Flags}
use darcoin.Interp.Signatures.{Crypto}
use darcoin.Interp.Opcodes.{
  Instr, push_small, nop, else_branch, end_if, verify, ret, to_alt, from_alt, within_range,
  code_separator, unknown, if_branch, on_stack, compare_equal, one_number, two_numbers, hash_top,
  check_one, check_multi, instr_of, is_disabled,
}
use darcoin.Interp.{
  Machine, execute, run_instr, run_if, pop_condition, else_exec, end_exec, move_to_alt,
  move_from_alt, set_stack, set_ops, check_size, count_ops, step, is_executing, eval_script,
}
use darcoin.Interp.Rounds.{Rounds, here, round, eval_script_iff-Rounds}
use darcoin.Interp.Branches.{
  drop_branch, keep_branch, branch_depth, IsBalanced, closed, then_op, instr_depth,
  branch_depth_plain, instr_of_depth,
}

-- The machine, if there is one, has this number of open branches.
abbrev HasOpen : Option ℕ → Option Machine → Type 0
HasOpen d none = Unit {0}
HasOpen d (some m) = d ≡ some (length m.exec)

HasOpen-set_stack :
    (m : Machine) (o : Option Items) → HasOpen (some (length m.exec)) (set_stack m o)
HasOpen-set_stack m none = tt
HasOpen-set_stack m (some s) = refl

HasOpen-set_ops :
    (m : Machine) (o : Option (ℕ × Items)) → HasOpen (some (length m.exec)) (set_ops m o)
HasOpen-set_ops m none = tt
HasOpen-set_ops m (some (n, s)) = refl

HasOpen-pop_condition :
    (negate : Bool) (m : Machine) (s : Items)
    → HasOpen (some (suc (length m.exec))) (pop_condition negate m s)
HasOpen-pop_condition negate m [] = tt
HasOpen-pop_condition negate m (v ∷ s) = refl

HasOpen-else_exec : (m : Machine) (e : List Bool) → HasOpen (keep_branch (length e)) (else_exec m e)
HasOpen-else_exec m [] = tt
HasOpen-else_exec m (b ∷ r) = refl

HasOpen-end_exec : (m : Machine) (e : List Bool) → HasOpen (drop_branch (length e)) (end_exec m e)
HasOpen-end_exec m [] = tt
HasOpen-end_exec m (b ∷ r) = refl

HasOpen-move_to_alt : (m : Machine) (s : Items) → HasOpen (some (length m.exec)) (move_to_alt m s)
HasOpen-move_to_alt m [] = tt
HasOpen-move_to_alt m (v ∷ s) = refl

HasOpen-move_from_alt :
    (m : Machine) (s : Items) → HasOpen (some (length m.exec)) (move_from_alt m s)
HasOpen-move_from_alt m [] = tt
HasOpen-move_from_alt m (v ∷ s) = refl

HasOpen-run_instr :
    (c : Crypto) (f : Flags) (run : Bool) (i : Instr) (rest : Bytes) (m : Machine)
    → HasOpen (instr_depth i (length m.exec)) (run_instr c f run i rest m)
unfolding run_instr run_if instr_depth
HasOpen-run_instr c f run (push_small n) rest m = refl
HasOpen-run_instr c f run nop rest m = refl
HasOpen-run_instr c f true (if_branch negate) rest m = HasOpen-pop_condition negate m m.stack
HasOpen-run_instr c f false (if_branch negate) rest m = refl
HasOpen-run_instr c f run else_branch rest m = HasOpen-else_exec m m.exec
HasOpen-run_instr c f run end_if rest m = HasOpen-end_exec m m.exec
HasOpen-run_instr c f run verify rest m = HasOpen-set_stack m _
HasOpen-run_instr c f run ret rest m = tt
HasOpen-run_instr c f run to_alt rest m = HasOpen-move_to_alt m m.stack
HasOpen-run_instr c f run from_alt rest m = HasOpen-move_from_alt m m.altstack
HasOpen-run_instr c f run (on_stack o) rest m = HasOpen-set_stack m _
HasOpen-run_instr c f run (compare_equal v) rest m = HasOpen-set_stack m _
HasOpen-run_instr c f run (one_number o) rest m = HasOpen-set_stack m _
HasOpen-run_instr c f run (two_numbers o) rest m = HasOpen-set_stack m _
HasOpen-run_instr c f run within_range rest m = HasOpen-set_stack m _
HasOpen-run_instr c f run (hash_top o) rest m = HasOpen-set_stack m _
HasOpen-run_instr c f run code_separator rest m = refl
HasOpen-run_instr c f run (check_one v) rest m = HasOpen-set_stack m _
HasOpen-run_instr c f run (check_multi v) rest m = HasOpen-set_ops m _
HasOpen-run_instr c f run unknown rest m = tt

HasOpen-execute :
    (c : Crypto) (f : Flags) (op : Op) (m : Machine)
    → is_disabled op.opcode ≡ false
    → HasOpen (branch_depth op.opcode (length m.exec)) (execute c f op m)
unfolding execute
HasOpen-execute c f op m d = elim (Bool-cases (is_executing m.exec && leb op.opcode 0x4e)) [
  | inl y ↦ rw y (branch_depth_plain op.opcode _ d (ground (arith, y)))
  | inr n ↦ elim (Bool-cases (is_executing m.exec || (leb 0x63 op.opcode && leb op.opcode 0x68))) [
    | inl y ↦
        rw (n, y)
          (subst
            (λ e. HasOpen e (run_instr c f (is_executing m.exec) (instr_of op.opcode) op.rest m))
            (instr_of_depth op.opcode (length m.exec) d)
            (HasOpen-run_instr c f (is_executing m.exec) (instr_of op.opcode) op.rest m))
    | inr k ↦ rw (n, k) (branch_depth_plain op.opcode _ d (ground (arith, k)))
  ]
]

check_size_same : (o : Option Machine) (m' : Machine) → check_size o ≡ some m' → o ≡ some m'
check_size_same none m' e = cc
check_size_same (some m) m' e = elim (Bool-cases (ltb 1000 (length m.stack + length m.altstack))) [
  | inl y ↦ absurd (cc (rw y at e))
  | inr n ↦ rw n at e
]

-- A round moves the number of open branches as the opcode says.
step-branch_depth :
    (c : Crypto) (f : Flags) (op : Op) (m m' : Machine)
    → step c f op m ≡ some m'
    → branch_depth op.opcode (length m.exec) ≡ some (length m'.exec)
unfolding step
step-branch_depth c f op m m' e = elim (Bool-cases (ltb 520 (length op.pushed))) [
  | inl y ↦ absurd (cc (rw y at e))
  | inr n ↦ elim (Bool-cases (ltb 0x60 op.opcode && ltb 201 (count_ops op m))) [
    | inl y ↦ absurd (cc (rw (n, y) at e))
    | inr k ↦ elim (Bool-cases (is_disabled op.opcode)) [
      | inl y ↦ absurd (cc (rw (n, k, y) at e))
      | inr d ↦
          subst (HasOpen (branch_depth op.opcode (length m.exec)))
            (check_size_same _ m' (rw (n, k, d) at e))
            (HasOpen-execute c f op (record m { op_count = count_ops op m }) d)
    ]
  ]
]

IsBalanced-Rounds :
    {c : Crypto} {f : Flags} {s : Bytes} {m m' : Machine}
    → Rounds c f s m [] m'
    → m'.exec ≡ []
    → IsBalanced (length m.exec) s
IsBalanced-Rounds here e = rw e closed
IsBalanced-Rounds (round op g x r) e =
    then_op op g (step-branch_depth _ _ op _ _ x) (IsBalanced-Rounds r e)

-- EvalScript returns true only on a script whose opcodes, those in branches that are not taken
-- included, close every branch that they open, have OP_ELSE and OP_ENDIF only in an open branch,
-- and are none of the disabled ones.
pub eval_script-IsBalanced :
    (c : Crypto) (f : Flags) (s s' : Items) (script : Bytes)
    → eval_script c f s script ≡ some s'
    → IsBalanced 0 script
eval_script-IsBalanced c f s s' script e =
    let (l, m, r, p, q) = (eval_script_iff-Rounds c f s s' script).0 e in IsBalanced-Rounds r q
