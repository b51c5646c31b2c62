-- ===== src/Interp/Bounds.antt =====
-- The limits that EvalScript keeps on the stacks, on the operations and on its rounds.
use mathlib.Core.Option.{some-injective}
use darcoin.Common.{
  ℕ, zero, suc, ◌+◌, ◌≤◌, ◌<◌, ◌≡◌, ◌≢◌, refl, ap, Bool, true, false, Bool-cases, Option-cases,
  Option, none, some, inl, inr, List, [], ◌∷◌, ltb, leb, ltb→lt, ltb-false→le, subst, ◌&&◌, ◌||◌,
  length, take, drop, Bytes, ℤ, pos, negsuc, arith, if◌then◌else◌,
}
use darcoin.Script.{Op, get_op}
use darcoin.Script.Termination.{length-get_op}
use darcoin.Script.Num.{script_num, getint}
use darcoin.Interp.Stack.{Items}
use darcoin.Interp.Canonical.{Flags}
use darcoin.Interp.Signatures.{Crypto, run_checkmultisig, run_signatures, with_count, with_ops}
use darcoin.Interp.Opcodes.{
  Instr, push_small, nop, else_branch, end_if, verify, ret, to_alt, from_alt, within_range,
  code_separator, unknown, if_branch, on_stack, compare_equal, one_number, two_numbers, hash_top,
  check_one, check_multi, instr_of, is_disabled,
}
use darcoin.Interp.{
  Machine, execute, run_instr, check_size, count_ops, step, Outcome, ended, failed, unfinished,
  eval_loop, finish, start, eval_script, set_stack, set_ops, run_if, pop_condition, else_exec,
  end_exec, move_to_alt, move_from_alt, is_executing,
}

-- EvalScript's loop with k and with m rounds is the same.
pub eval_loop-enough :
    (c : Crypto) (f : Flags) (k n : ℕ) (s : Bytes) (m : Machine)
    → length s ≤ k
    → length s ≤ n
    → eval_loop c f k s m ≡ eval_loop c f n s m
unfolding eval_loop
eval_loop-enough c f zero zero [] m g h = refl
eval_loop-enough c f zero (suc n) [] m g h = refl
eval_loop-enough c f (suc k) zero [] m g h = refl
eval_loop-enough c f (suc k) (suc n) [] m g h = refl
eval_loop-enough c f zero n (b ∷ s) m g h = absurd (omega arith)
eval_loop-enough c f (suc k) zero (b ∷ s) m g h = absurd (omega arith)
eval_loop-enough c f (suc k) (suc n) (b ∷ s) m g h = elim (Option-cases (get_op (b ∷ s))) [
  | inl e ↦ rw e refl
  | inr (op, e) ↦
      let shorter : length op.rest < length (b ∷ s) = length-get_op (b ∷ s) op e in
      elim (Option-cases (step c f op m)) [
        | inl d ↦ rw (e, d) refl
        | inr (m', d) ↦
            rw (e, d)
              (eval_loop-enough c f k n op.rest m' (omega (arith, shorter, g))
                (omega (arith, shorter, h)))
      ]
]

abbrev IsFinished : Outcome → Type 0
IsFinished unfinished = ⊥
IsFinished failed = Unit {0}
IsFinished (ended m) = Unit {0}

-- As many rounds as the script has bytes are enough.
eval_loop-IsFinished :
    (c : Crypto) (f : Flags) (k : ℕ) (s : Bytes) (m : Machine)
    → length s ≤ k
    → IsFinished (eval_loop c f k s m)
unfolding eval_loop
eval_loop-IsFinished c f zero [] m h = tt
eval_loop-IsFinished c f (suc k) [] m h = tt
eval_loop-IsFinished c f zero (b ∷ s) m h = absurd (omega (arith, h))
eval_loop-IsFinished c f (suc k) (b ∷ s) m h = elim (Option-cases (get_op (b ∷ s))) [
  | inl e ↦ rw e tt
  | inr (op, e) ↦
      let shorter : length op.rest < length (b ∷ s) = length-get_op (b ∷ s) op e in
      elim (Option-cases (step c f op m)) [
        | inl d ↦ rw (e, d) tt
        | inr (m', d) ↦
            rw (e, d) (eval_loop-IsFinished c f k op.rest m' (omega (arith, shorter, h)))
      ]
]

pub eval_script-eval_loop :
    (c : Crypto) (f : Flags) (s : Items) (script : Bytes) (fuel : ℕ)
    → length script ≤ 10000
    → length script ≤ fuel
    → eval_script c f s script ≡ finish (eval_loop c f fuel script (start s script))
unfolding eval_script
eval_script-eval_loop c f s script fuel h g = elim (Bool-cases (ltb 10000 (length script))) [
  | inl y ↦ absurd (omega (arith, ltb→lt _ _ y, h))
  | inr n ↦ rw n (
      ap finish (eval_loop-enough c f (length script) fuel script (start s script) (omega arith) g))
]

-- The loop of EvalScript ends on a script of at most 10000 bytes: on as many rounds as the script
-- has bytes, or more, it does not run out of rounds, and what EvalScript returns is what the end of
-- this loop gives.
pub eval_script-enough :
    (c : Crypto) (f : Flags) (s : Items) (script : Bytes) (fuel : ℕ)
    → length script ≤ 10000
    → length script ≤ fuel
    → (eval_loop c f fuel script (start s script) ≢ unfinished)
      × (eval_script c f s script ≡ finish (eval_loop c f fuel script (start s script)))
eval_script-enough c f s script fuel h g = (
  (λ e. subst IsFinished e (eval_loop-IsFinished c f fuel script (start s script) g)),
  eval_script-eval_loop c f s script fuel h g,
)

-- The limits on a machine: MAX 1000 elements on the two stacks, and 201 operations.
pub record Limited (m : Machine) : Type 0 where
  pub stacks : length m.stack + length m.altstack ≤ 1000
  pub operations : m.op_count ≤ 201

-- The operations so far are within the limit where there is a machine.
abbrev Counted : Option Machine → Type 0
Counted none = Unit {0}
Counted (some m) = m.op_count ≤ 201

Counted-set_stack : (m : Machine) (o : Option Items) → m.op_count ≤ 201 → Counted (set_stack m o)
Counted-set_stack m none h = tt
Counted-set_stack m (some s) h = h

Counted-with_ops :
    (m : Machine) (n : ℕ) (o : Option Items) → n ≤ 201 → Counted (set_ops m (with_ops n o))
Counted-with_ops m n none h = tt
Counted-with_ops m n (some s) h = h

Counted-guard :
    (m : Machine) (b : Bool) (o : Option (ℕ × Items))
    → Counted (set_ops m o)
    → Counted (set_ops m (if b then none else o))
Counted-guard m true o h = tt
Counted-guard m false o h = h

Counted-with_count :
    (m : Machine) (v : Option ℤ) (most : ℕ) (g : ℕ → Option (ℕ × Items))
    → ((n : ℕ) → Counted (set_ops m (g n)))
    → Counted (set_ops m (with_count v most g))
Counted-with_count m none most g h = tt
Counted-with_count m (some v) most g h =
    elim (getint v)
      as (λ i.
        Counted
          (set_ops m (elim i [ negsuc n ↦ none | pos n ↦ if ltb most n then none else g n ]))) [
            | negsuc n ↦ tt
            | pos n ↦ Counted-guard m (ltb most n) (g n) (h n)
          ]

Counted-run_signatures :
    (m : Machine) (c : Crypto) (f : Flags) (v : Bool) (code : Bytes) (ops : ℕ) (keys : List Bytes)
    (s : Items)
    → ops ≤ 201
    → Counted (set_ops m (run_signatures c f v code ops keys s))
unfolding run_signatures
Counted-run_signatures m c f v code ops keys [] h = tt
Counted-run_signatures m c f v code ops keys (n ∷ r) h =
    Counted-with_count m (script_num n) (length keys) _
      (λ sigs. Counted-guard m (ltb (length r) (sigs + 1)) _ (Counted-with_ops m ops _ h))

Counted-run_checkmultisig :
    (m : Machine) (c : Crypto) (f : Flags) (v : Bool) (code : Bytes) (ops : ℕ) (s : Items)
    → Counted (set_ops m (run_checkmultisig c f v code ops s))
unfolding run_checkmultisig
Counted-run_checkmultisig m c f v code ops [] = tt
Counted-run_checkmultisig m c f v code ops (n ∷ s) =
    Counted-with_count m (script_num n) 20 _ (λ keys. elim (Bool-cases (ltb 201 (ops + keys))) [
      | inl y ↦ rw y tt
      | inr k ↦ rw k (
          Counted-guard m (ltb (length s) (keys + 1)) _ (
            Counted-run_signatures m c f v code (ops + keys) (take keys s) (drop keys s)
              (omega (arith, ltb-false→le _ _ k))))
    ])

Counted-pop_condition :
    (negate : Bool) (m : Machine) (s : Items)
    → m.op_count ≤ 201
    → Counted (pop_condition negate m s)
Counted-pop_condition negate m [] h = tt
Counted-pop_condition negate m (v ∷ s) h = h

Counted-else_exec : (m : Machine) (e : List Bool) → m.op_count ≤ 201 → Counted (else_exec m e)
Counted-else_exec m [] h = tt
Counted-else_exec m (b ∷ r) h = h

Counted-end_exec : (m : Machine) (e : List Bool) → m.op_count ≤ 201 → Counted (end_exec m e)
Counted-end_exec m [] h = tt
Counted-end_exec m (b ∷ r) h = h

Counted-move_to_alt : (m : Machine) (s : Items) → m.op_count ≤ 201 → Counted (move_to_alt m s)
Counted-move_to_alt m [] h = tt
Counted-move_to_alt m (v ∷ s) h = h

Counted-move_from_alt : (m : Machine) (s : Items) → m.op_count ≤ 201 → Counted (move_from_alt m s)
Counted-move_from_alt m [] h = tt
Counted-move_from_alt m (v ∷ s) h = h

Counted-run_instr :
    (c : Crypto) (f : Flags) (run : Bool) (i : Instr) (rest : Bytes) (m : Machine)
    → m.op_count ≤ 201
    → Counted (run_instr c f run i rest m)
unfolding run_instr run_if
Counted-run_instr c f run (push_small n) rest m h = h
Counted-run_instr c f run nop rest m h = h
Counted-run_instr c f true (if_branch negate) rest m h = Counted-pop_condition negate m m.stack h
Counted-run_instr c f false (if_branch negate) rest m h = h
Counted-run_instr c f run else_branch rest m h = Counted-else_exec m m.exec h
Counted-run_instr c f run end_if rest m h = Counted-end_exec m m.exec h
Counted-run_instr c f run verify rest m h = Counted-set_stack m _ h
Counted-run_instr c f run ret rest m h = tt
Counted-run_instr c f run to_alt rest m h = Counted-move_to_alt m m.stack h
Counted-run_instr c f run from_alt rest m h = Counted-move_from_alt m m.altstack h
Counted-run_instr c f run (on_stack o) rest m h = Counted-set_stack m _ h
Counted-run_instr c f run (compare_equal v) rest m h = Counted-set_stack m _ h
Counted-run_instr c f run (one_number o) rest m h = Counted-set_stack m _ h
Counted-run_instr c f run (two_numbers o) rest m h = Counted-set_stack m _ h
Counted-run_instr c f run within_range rest m h = Counted-set_stack m _ h
Counted-run_instr c f run (hash_top o) rest m h = Counted-set_stack m _ h
Counted-run_instr c f run code_separator rest m h = h
Counted-run_instr c f run (check_one v) rest m h = Counted-set_stack m _ h
Counted-run_instr c f run (check_multi v) rest m h =
    Counted-run_checkmultisig m c f v m.code m.op_count m.stack
Counted-run_instr c f run unknown rest m h = tt

Counted-execute :
    (c : Crypto) (f : Flags) (op : Op) (m : Machine) → m.op_count ≤ 201 → Counted (execute c f op m)
unfolding execute
Counted-execute c f op m h = elim (Bool-cases (is_executing m.exec && leb op.opcode 0x4e)) [
  | inl y ↦ rw y h
  | inr n ↦ elim (Bool-cases (is_executing m.exec || (leb 0x63 op.opcode && leb op.opcode 0x68))) [
    | inl y ↦
        rw (n, y) (Counted-run_instr c f (is_executing m.exec) (instr_of op.opcode) op.rest m h)
    | inr k ↦ rw (n, k) h
  ]
]

Limited-check_size :
    (o : Option Machine) (m' : Machine) → Counted o → check_size o ≡ some m' → Limited m'
Limited-check_size none m' h e = cc
Limited-check_size (some m) m' h e =
    elim (Bool-cases (ltb 1000 (length m.stack + length m.altstack))) [
      | inl y ↦ absurd (cc (rw y at e))
      | inr n ↦
          let same : m ≡ m' = some-injective m m' (rw n at e) in
          subst Limited same (record { stacks = omega (arith, ltb-false→le _ _ n); operations = h })
    ]

-- nOpCount behind `++nOpCount > 201`
Counted-read :
    (op : Op) (m : Machine)
    → m.op_count ≤ 201
    → (ltb 0x60 op.opcode && ltb 201 (count_ops op m)) ≡ false
    → count_ops op m ≤ 201
Counted-read op m h k = ground arith

-- A round ends in a machine within the limits.
pub step-Limited :
    (c : Crypto) (f : Flags) (op : Op) (m m' : Machine)
    → m.op_count ≤ 201
    → step c f op m ≡ some m'
    → Limited m'
unfolding step
step-Limited c f op m m' h e = elim (Bool-cases (ltb 520 (length op.pushed))) [
  | inl y ↦ absurd (cc (rw y at e))
  | inr n ↦ elim (Bool-cases (ltb 0x60 op.opcode && ltb 201 (count_ops op m))) [
    | inl y ↦ absurd (cc (rw (n, y) at e))
    | inr k ↦ elim (Bool-cases (is_disabled op.opcode)) [
      | inl y ↦ absurd (cc (rw (n, k, y) at e))
      | inr d ↦
          Limited-check_size _ m' (Counted-execute c f op _ (Counted-read op m h k))
            (rw (n, k, d) at e)
    ]
  ]
]
