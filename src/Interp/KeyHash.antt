-- ===== src/Interp/KeyHash.antt =====
-- EvalScript (script.cpp) on the output script that pays to the hash of a public key.
use darcoin.Common.{
  ℕ, suc, ◌≤◌, ◌≡◌, refl, ap, ◌∙◌, false, Bool-cases, none, some, inl, inr, [], ◌∷◌, ◌++◌, ltb,
  ◌&&◌, bytes_eq, length, length-append, Bytes, arith, if◌then◌else◌,
}
use darcoin.Script.{Op, get_op, push_data}
use darcoin.Script.Delete.{find_and_delete}
use darcoin.Script.Laws.{get_op-short_push}
use darcoin.Script.Termination.{length-get_op, get_op-opcode}
use darcoin.Interp.Stack.{Items, run_stack_op, dup_1}
use darcoin.Interp.Numeric.{equal, bool_bytes}
use darcoin.Interp.Canonical.{Flags}
use darcoin.Interp.Signatures.{Crypto, run_hash, hash160, accepts, run_checksig}
use darcoin.Interp.Opcodes.{instr_of, is_disabled}
use darcoin.Interp.{
  Machine, execute, run_instr, count_ops, step, failed, eval_loop, finish, start, eval_script,
}
use darcoin.Interp.Bounds.{eval_script-eval_loop}
use darcoin.Interp.Standard.{eval_loop-run}

-- OP_DUP OP_HASH160 <hash> OP_EQUALVERIFY OP_CHECKSIG
abbrev pub key_hash_output : Bytes → Bytes
key_hash_output hash = 0x76 ∷ 0xa9 ∷ 0x14 ∷ (hash ++ (0x88 ∷ 0xac ∷ []))

-- A round on an operation that fails.
eval_loop-stop :
    (c : Crypto) (f : Flags) (k : ℕ) (s : Bytes) (op : Op) (m : Machine)
    → get_op s ≡ some op
    → ltb 520 (length op.pushed) ≡ false
    → (ltb 0x60 op.opcode && ltb 201 (count_ops op m)) ≡ false
    → is_disabled op.opcode ≡ false
    → execute c f op (record m { op_count = count_ops op m }) ≡ none
    → eval_loop c f (suc k) s m ≡ failed
unfolding eval_loop step
eval_loop-stop c f k [] op m g p n d e = absurd (omega (arith, length-get_op [] op g))
eval_loop-stop c f k (b ∷ s) op m g p n d e = rw (g, p, n, d, e) refl

-- The machine in front of OP_EQUALVERIFY.
compared : Crypto → Items → Bytes → Bytes → Bytes → Machine
compared c s key sig hash = record {
  stack = hash ∷ hash160 c key ∷ key ∷ sig ∷ s;
  altstack = [];
  exec = [];
  op_count = 2;
  code = key_hash_output hash;
}

-- OP_EQUALVERIFY OP_CHECKSIG
check_key :
    (c : Crypto) (f : Flags) (hash key sig : Bytes) (s : Items)
    → length s ≤ 996
    → finish (eval_loop c f 22 (0x88 ∷ 0xac ∷ []) (compared c s key sig hash)) ≡ (
        if bytes_eq (hash160 c key) hash
        then some (
            bool_bytes
              (accepts c f (find_and_delete (push_data sig) (key_hash_output hash)) sig key)
            ∷ s)
        else none)
unfolding eval_loop execute run_instr instr_of is_disabled equal run_checksig compared
check_key c f hash key sig s l = elim (Bool-cases (bytes_eq (hash160 c key) hash)) [
  | inl y ↦ rw y (
      ap finish (
        eval_loop-run c f 21 (0x88 ∷ 0xac ∷ [])
          (record { opcode = 0x88; pushed = []; rest = 0xac ∷ [] }) (compared c s key sig hash)
          (record {
            stack = key ∷ sig ∷ s;
            altstack = [];
            exec = [];
            op_count = 3;
            code = key_hash_output hash;
          })
          (get_op-opcode 0x88 _ refl) refl refl refl (rw y refl) (omega (arith, l))
        ∙ eval_loop-run c f 20 (0xac ∷ []) (record { opcode = 0xac; pushed = []; rest = [] })
            (record {
              stack = key ∷ sig ∷ s;
              altstack = [];
              exec = [];
              op_count = 3;
              code = key_hash_output hash;
            })
            (record {
              stack =
                  bool_bytes
                    (accepts c f (find_and_delete (push_data sig) (key_hash_output hash)) sig key)
                  ∷ s;
              altstack = [];
              exec = [];
              op_count = 4;
              code = key_hash_output hash;
            })
            (get_op-opcode 0xac _ refl) refl refl refl refl (omega (arith, l))))
  | inr n ↦ rw n (
      ap finish (
        eval_loop-stop c f 21 (0x88 ∷ 0xac ∷ [])
          (record { opcode = 0x88; pushed = []; rest = 0xac ∷ [] }) (compared c s key sig hash)
          (get_op-opcode 0x88 _ refl) refl refl refl (rw n refl)))
]

-- On a stack of a public key above a signature, a pay-to-pubkey-hash script fails where the Hash160
-- of the key is not the 20 bytes of the script; else it replaces both by whether they are in
-- canonical form and CheckSig accepts them for the script without the signature.
pub eval_script-key_hash_output :
    (c : Crypto) (f : Flags) (hash key sig : Bytes) (s : Items)
    → length hash ≡ 20
    → length s ≤ 996
    → eval_script c f (key ∷ sig ∷ s) (key_hash_output hash) ≡ (
        if bytes_eq (hash160 c key) hash
        then some (
            bool_bytes
              (accepts c f (find_and_delete (push_data sig) (key_hash_output hash)) sig key)
            ∷ s)
        else none)
unfolding execute run_instr instr_of is_disabled run_hash run_stack_op dup_1 compared
eval_script-key_hash_output c f hash key sig s h l =
    let out : Bytes = key_hash_output hash in
    let size : length out ≡ 25 = omega (arith, length-append hash (0x88 ∷ 0xac ∷ []), h) in
    eval_script-eval_loop c f (key ∷ sig ∷ s) out 25 (omega (arith, size)) (omega (arith, size))
    ∙ ap finish (
        eval_loop-run c f 24 out
          (record { opcode = 0x76; pushed = []; rest = 0xa9 ∷ 0x14 ∷ (hash ++ (0x88 ∷ 0xac ∷ [])) })
          (start (key ∷ sig ∷ s) out)
          (record {
            stack = key ∷ key ∷ sig ∷ s;
            altstack = [];
            exec = [];
            op_count = 1;
            code = out;
          })
          (get_op-opcode 0x76 _ refl) refl refl refl refl (omega (arith, l))
        ∙ eval_loop-run c f 23 (0xa9 ∷ 0x14 ∷ (hash ++ (0x88 ∷ 0xac ∷ [])))
            (record { opcode = 0xa9; pushed = []; rest = 0x14 ∷ (hash ++ (0x88 ∷ 0xac ∷ [])) })
            (record {
              stack = key ∷ key ∷ sig ∷ s;
              altstack = [];
              exec = [];
              op_count = 1;
              code = out;
            })
            (record {
              stack = hash160 c key ∷ key ∷ sig ∷ s;
              altstack = [];
              exec = [];
              op_count = 2;
              code = out;
            })
            (get_op-opcode 0xa9 _ refl) refl refl refl refl (omega (arith, l))
        ∙ eval_loop-run c f 22 (0x14 ∷ (hash ++ (0x88 ∷ 0xac ∷ [])))
            (record { opcode = 0x14; pushed = hash; rest = 0x88 ∷ 0xac ∷ [] })
            (record {
              stack = hash160 c key ∷ key ∷ sig ∷ s;
              altstack = [];
              exec = [];
              op_count = 2;
              code = out;
            })
            (compared c s key sig hash)
            (get_op-short_push 0x14 hash (0x88 ∷ 0xac ∷ []) h (omega arith)
              (omega (arith, length-append hash (0x88 ∷ 0xac ∷ []), h)))
            (rw h refl) refl refl refl (omega (arith, l)))
    ∙ check_key c f hash key sig s l
