-- ===== src/Interp/Standard.antt =====
-- EvalScript (script.cpp) on the output scripts of the standard kinds.
use darcoin.Common.{
  ℕ, zero, suc, ◌+◌, ◌≡◌, refl, ap, ◌∙◌, true, false, Bool-cases, none, some, inl, inr, [], ◌∷◌,
  ◌++◌, ltb, length, length-append, ltb→lt, ◌≤◌, ◌&&◌, bytes_eq, Bytes, arith,
}
use darcoin.Script.{Op, get_op, is_pay_to_script_hash}
use darcoin.Script.Termination.{length-get_op, get_op-opcode}
use darcoin.Script.Laws.{get_op-short_push}
use darcoin.Interp.Bounds.{eval_script-eval_loop}
use darcoin.Interp.Stack.{Items}
use darcoin.Interp.Numeric.{equal, bool_bytes}
use darcoin.Interp.Canonical.{Flags}
use darcoin.Interp.Signatures.{Crypto, run_hash, hash160}
use darcoin.Interp.Opcodes.{instr_of, is_disabled}
use darcoin.Interp.{
  Machine, execute, run_instr, check_size, count_ops, step, eval_loop, finish, start, eval_script,
}

-- The stacks are within the limit.
check_size-small :
    (m : Machine) → length m.stack + length m.altstack ≤ 1000 → check_size (some m) ≡ some m
check_size-small m h = elim (Bool-cases (ltb 1000 (length m.stack + length m.altstack))) [
  | inl y ↦ absurd (omega (arith, h, ltb→lt _ _ y))
  | inr n ↦ rw n refl
]

-- A round on an operation that is run.
pub eval_loop-run :
    (c : Crypto) (f : Flags) (k : ℕ) (s : Bytes) (op : Op) (m m' : Machine)
    → get_op s ≡ some op
    → ltb 520 (length op.pushed) ≡ false
    → (ltb 0x60 op.opcode && ltb 201 (count_ops op m)) ≡ false
    → is_disabled op.opcode ≡ false
    → execute c f op (record m { op_count = count_ops op m }) ≡ some m'
    → length m'.stack + length m'.altstack ≤ 1000
    → eval_loop c f (suc k) s m ≡ eval_loop c f k op.rest m'
unfolding eval_loop step
eval_loop-run c f k [] op m m' g p n d e l = absurd (omega (arith, length-get_op [] op g))
eval_loop-run c f k (b ∷ s) op m m' g p n d e l = rw (g, p, n, d, e, check_size-small m' l) refl

-- OP_HASH160 fails on an empty stack.
hash160_nil :
    (c : Crypto) (f : Flags) (k : ℕ) (s : Bytes) (code : Bytes)
    → finish (eval_loop c f k (0xa9 ∷ s) (start [] code)) ≡ none
unfolding eval_loop step execute run_instr instr_of is_disabled run_hash
hash160_nil c f zero s code = refl
hash160_nil c f (suc k) s code = rw (get_op-opcode 0xa9 s refl) refl

-- A script of the form OP_HASH160 <20 bytes> OP_EQUAL fails on an empty stack.
pub eval_script-is_pay_to_script_hash :
    (c : Crypto) (f : Flags) (key : Bytes)
    → is_pay_to_script_hash key ≡ true
    → eval_script c f [] key ≡ none
unfolding eval_script is_pay_to_script_hash
eval_script-is_pay_to_script_hash c f [] h = cc
eval_script-is_pay_to_script_hash c f (b ∷ r) h =
    let e : b ≡ 0xa9 = ground (arith, h) in
    rw e (elim (Bool-cases (ltb 10000 (suc (length r)))) [
      | inl y ↦ rw y refl
      | inr n ↦ rw n (hash160_nil c f (length (b ∷ r)) r (0xa9 ∷ r))
    ])

-- OP_HASH160 <hash> OP_EQUAL
abbrev pub script_hash_output : Bytes → Bytes
script_hash_output hash = 0xa9 ∷ 0x14 ∷ (hash ++ (0x87 ∷ []))

-- On a stack whose top is v, a pay-to-script-hash script replaces it by whether its Hash160 is the
-- 20 bytes of the script.
pub eval_script-script_hash_output :
    (c : Crypto) (f : Flags) (hash v : Bytes) (s : Items)
    → length hash ≡ 20
    → length s ≤ 998
    → eval_script c f (v ∷ s) (script_hash_output hash)
      ≡ some (bool_bytes (bytes_eq (hash160 c v) hash) ∷ s)
unfolding eval_loop execute run_instr instr_of is_disabled run_hash equal
eval_script-script_hash_output c f hash v s h l =
    let key : Bytes = script_hash_output hash in
    let size : length key ≡ 23 = omega (arith, length-append hash (0x87 ∷ []), h) in
    eval_script-eval_loop c f (v ∷ s) key 23 (omega (arith, size)) (omega (arith, size))
    ∙ ap finish (
        eval_loop-run c f 22 key
          (record { opcode = 0xa9; pushed = []; rest = 0x14 ∷ (hash ++ (0x87 ∷ [])) })
          (start (v ∷ s) key)
          (record { stack = hash160 c v ∷ s; altstack = []; exec = []; op_count = 1; code = key })
          (get_op-opcode 0xa9 _ refl) refl refl refl refl (omega (arith, l))
        ∙ eval_loop-run c f 21 (0x14 ∷ (hash ++ (0x87 ∷ [])))
            (record { opcode = 0x14; pushed = hash; rest = 0x87 ∷ [] })
            (record { stack = hash160 c v ∷ s; altstack = []; exec = []; op_count = 1; code = key })
            (record {
              stack = hash ∷ hash160 c v ∷ s;
              altstack = [];
              exec = [];
              op_count = 1;
              code = key;
            })
            (get_op-short_push 0x14 hash (0x87 ∷ []) h (omega arith)
              (omega (arith, length-append hash (0x87 ∷ []), h)))
            (rw h refl) refl refl refl (omega (arith, l))
        ∙ eval_loop-run c f 20 (0x87 ∷ []) (record { opcode = 0x87; pushed = []; rest = [] })
            (record {
              stack = hash ∷ hash160 c v ∷ s;
              altstack = [];
              exec = [];
              op_count = 1;
              code = key;
            })
            (record {
              stack = bool_bytes (bytes_eq (hash160 c v) hash) ∷ s;
              altstack = [];
              exec = [];
              op_count = 2;
              code = key;
            })
            (get_op-opcode 0x87 _ refl) refl refl refl refl (omega (arith, l)))
