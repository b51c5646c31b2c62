-- ===== src/Interp/Verify/Laws.antt =====
-- VerifyScript (script.cpp): its assertion holds, and SCRIPT_VERIFY_P2SH only forbids more.
use mathlib.Core.Path.{fun_ext}
use darcoin.Common.{
  ℕ, zero, suc, ◌+◌, length, ap, take, drop, ◌≡◌, ◌≢◌, refl, Bool, true, false, ◌&&◌, Bool-cases,
  Option-cases, inl, inr, List, [], ◌∷◌, Bytes, arith,
}
use darcoin.Script.Num.{script_num}
use darcoin.Script.{Op, get_op, is_pay_to_script_hash, is_push_only}
use darcoin.Interp.Stack.{Items}
use darcoin.Interp.Canonical.{Flags, is_canonical_pub_key, is_canonical_signature}
use darcoin.Interp.Signatures.{Crypto, run_checksig, run_signatures, run_checkmultisig, with_count}
use darcoin.Interp.{
  Machine, execute, run_instr, step, eval_loop, start, eval_script, set_stack, set_ops,
}
use darcoin.Interp.Opcodes.{
  Instr, push_small, nop, else_branch, end_if, verify, ret, to_alt, from_alt, within_range,
  code_separator, unknown, if_branch, on_stack, compare_equal, one_number, two_numbers, hash_top,
  check_one, check_multi,
}
use darcoin.Interp.Standard.{eval_script-is_pay_to_script_hash}
use darcoin.Interp.Verify.{
  valid, aborted, leaves_true, verdict, verify_redeem, verify_output, verify_script,
}

verdict-not-aborted : (b : Bool) → verdict b ≢ aborted
verdict-not-aborted true e = cc
verdict-not-aborted false e = cc

-- The stack that the redeem script is taken from is not empty.
verify_redeem-not-aborted :
    (c : Crypto) (f : Flags) (key : Bytes) (s : Items)
    → leaves_true (eval_script c f s key) ≡ true
    → is_pay_to_script_hash key ≡ true
    → verify_redeem c f s ≢ aborted
unfolding verify_redeem
verify_redeem-not-aborted c f key [] h p e =
    absurd (cc (rw (eval_script-is_pay_to_script_hash c f key p) at h))
verify_redeem-not-aborted c f key (script ∷ s) h p e = verdict-not-aborted _ e

verify_output-not-aborted :
    (c : Crypto) (f : Flags) (sig key : Bytes) (s : Items) → verify_output c f sig key s ≢ aborted
unfolding verify_output
verify_output-not-aborted c f sig key s e =
    elim (Bool-cases (leaves_true (eval_script c f s key))) [
      | inr n ↦ absurd (cc (rw n at e))
      | inl y ↦ elim (Bool-cases (f.p2sh && is_pay_to_script_hash key)) [
        | inr n ↦ absurd (cc (rw (y, n) at e))
        | inl p ↦ elim (Bool-cases (is_push_only sig)) [
          | inr n ↦ absurd (cc (rw (y, p, n) at e))
          | inl q ↦ verify_redeem-not-aborted c f key s y (ground (arith, p)) (rw (y, p, q) at e)
        ]
      ]
    ]

-- The assertion of VerifyScript, that stackCopy is not empty, holds in every run.
pub verify_script-not-aborted :
    (c : Crypto) (f : Flags) (sig key : Bytes) → verify_script c f sig key ≢ aborted
unfolding verify_script
verify_script-not-aborted c f sig key e = elim (Option-cases (eval_script c f [] sig)) [
  | inl n ↦ absurd (cc (rw n at e))
  | inr (s, y) ↦ verify_output-not-aborted c f sig key s (rw y at e)
]

-- The flags with SCRIPT_VERIFY_P2SH set, or not.
abbrev pub with_p2sh : Bool → Flags → Flags
with_p2sh b f = record f { p2sh = b }

run_checksig-p2sh :
    (c : Crypto) (f : Flags) (v : Bool) (code : Bytes) (s : Items)
    → run_checksig c (with_p2sh true f) v code s ≡ run_checksig c (with_p2sh false f) v code s
unfolding run_checksig is_canonical_signature is_canonical_pub_key
run_checksig-p2sh c f v code [] = refl
run_checksig-p2sh c f v code (key ∷ []) = refl
run_checksig-p2sh c f v code (key ∷ sig ∷ s) = refl

run_signatures-p2sh :
    (c : Crypto) (f : Flags) (v : Bool) (code : Bytes) (ops : ℕ) (keys : List Bytes) (s : Items)
    → run_signatures c (with_p2sh true f) v code ops keys s
      ≡ run_signatures c (with_p2sh false f) v code ops keys s
unfolding run_signatures is_canonical_signature is_canonical_pub_key
run_signatures-p2sh c f v code ops keys [] = refl
run_signatures-p2sh c f v code ops keys (n ∷ s) = refl

run_checkmultisig-p2sh :
    (c : Crypto) (f : Flags) (v : Bool) (code : Bytes) (ops : ℕ) (s : Items)
    → run_checkmultisig c (with_p2sh true f) v code ops s
      ≡ run_checkmultisig c (with_p2sh false f) v code ops s
unfolding run_checkmultisig
run_checkmultisig-p2sh c f v code ops [] = refl
run_checkmultisig-p2sh c f v code ops (n ∷ s) = ap (with_count (script_num n) 20) (
    fun_ext
      (λ keys. rw (run_signatures-p2sh c f v code (ops + keys) (take keys s) (drop keys s)) refl))

run_instr-p2sh :
    (c : Crypto) (f : Flags) (run : Bool) (i : Instr) (rest : Bytes) (m : Machine)
    → run_instr c (with_p2sh true f) run i rest m ≡ run_instr c (with_p2sh false f) run i rest m
unfolding run_instr
run_instr-p2sh c f run (push_small n) rest m = refl
run_instr-p2sh c f run nop rest m = refl
run_instr-p2sh c f run (if_branch negate) rest m = refl
run_instr-p2sh c f run else_branch rest m = refl
run_instr-p2sh c f run end_if rest m = refl
run_instr-p2sh c f run verify rest m = refl
run_instr-p2sh c f run ret rest m = refl
run_instr-p2sh c f run to_alt rest m = refl
run_instr-p2sh c f run from_alt rest m = refl
run_instr-p2sh c f run (on_stack o) rest m = refl
run_instr-p2sh c f run (compare_equal v) rest m = refl
run_instr-p2sh c f run (one_number o) rest m = refl
run_instr-p2sh c f run (two_numbers o) rest m = refl
run_instr-p2sh c f run within_range rest m = refl
run_instr-p2sh c f run (hash_top o) rest m = refl
run_instr-p2sh c f run code_separator rest m = refl
run_instr-p2sh c f run (check_one v) rest m =
    ap (set_stack m) (run_checksig-p2sh c f v m.code m.stack)
run_instr-p2sh c f run (check_multi v) rest m =
    ap (set_ops m) (run_checkmultisig-p2sh c f v m.code m.op_count m.stack)
run_instr-p2sh c f run unknown rest m = refl

step-p2sh :
    (c : Crypto) (f : Flags) (op : Op) (m : Machine)
    → step c (with_p2sh true f) op m ≡ step c (with_p2sh false f) op m
unfolding step execute
step-p2sh c f op m = rw (run_instr-p2sh c f _ _ _ _) refl

eval_loop-p2sh :
    (c : Crypto) (f : Flags) (k : ℕ) (s : Bytes) (m : Machine)
    → eval_loop c (with_p2sh true f) k s m ≡ eval_loop c (with_p2sh false f) k s m
unfolding eval_loop
eval_loop-p2sh c f zero [] m = refl
eval_loop-p2sh c f (suc k) [] m = refl
eval_loop-p2sh c f zero (b ∷ s) m = refl
eval_loop-p2sh c f (suc k) (b ∷ s) m = elim (Option-cases (get_op (b ∷ s))) [
  | inl g ↦ rw g refl
  | inr (op, g) ↦ elim (Option-cases (step c (with_p2sh false f) op m)) [
    | inl d ↦ rw (g, step-p2sh c f op m, d) refl
    | inr (m', d) ↦ rw (g, step-p2sh c f op m, d) (eval_loop-p2sh c f k op.rest m')
  ]
]

-- EvalScript does not read SCRIPT_VERIFY_P2SH.
eval_script-p2sh :
    (c : Crypto) (f : Flags) (s : Items) (script : Bytes)
    → eval_script c (with_p2sh true f) s script ≡ eval_script c (with_p2sh false f) s script
unfolding eval_script
eval_script-p2sh c f s script = rw (eval_loop-p2sh c f (length script) script (start s script)) refl

-- What VerifyScript accepts with SCRIPT_VERIFY_P2SH it also accepts without, under the same other
-- flags.
pub verify_script-p2sh :
    (c : Crypto) (f : Flags) (sig key : Bytes)
    → verify_script c (with_p2sh true f) sig key ≡ valid
    → verify_script c (with_p2sh false f) sig key ≡ valid
unfolding verify_script verify_output
verify_script-p2sh c f sig key e = elim (Option-cases (eval_script c (with_p2sh false f) [] sig)) [
  | inl n ↦ absurd (cc (rw (eval_script-p2sh c f [] sig, n) at e))
  | inr (s, y) ↦ elim (Bool-cases (leaves_true (eval_script c (with_p2sh false f) s key))) [
    | inl t ↦ rw (y, t) refl
    | inr n ↦ absurd (cc (rw (eval_script-p2sh c f [] sig, y, eval_script-p2sh c f s key, n) at e))
  ]
]
