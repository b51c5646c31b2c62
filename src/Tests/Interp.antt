-- ===== src/Tests/Interp.antt =====
-- Runs of scripts, with hash functions that stand in for the real ones.
use darcoin.Common.{
  ℕ, ◌≤◌, ◌≡◌, ◌≢◌, ◌↔◌, refl, Bool, true, false, some, List, [], ◌∷◌, pos, negsuc, replicate,
  Bytes, bytes_eq, arith,
}
use darcoin.Script.{get_op, push_loop, is_push_only, is_pay_to_script_hash}
use darcoin.Script.Termination.{get_op-opcode}
use darcoin.Script.Num.{serialize, script_num, cast_to_bool, magnitude_bytes, put_sign}
use darcoin.Script.Num.Laws.{script_num-serialize}
use darcoin.Interp.Stack.{run_stack_op, dup_1}
use darcoin.Interp.Numeric.{equal}
use darcoin.Interp.Canonical.{Flags, is_canonical_signature, is_canonical_pub_key}
use darcoin.Interp.Signatures.{match_signatures, Crypto, run_hash}
use darcoin.Interp.Opcodes.{instr_of, is_disabled}
use darcoin.Interp.{
  Machine, execute, run_instr, run_if, step, unfinished, eval_loop, finish, start, eval_script,
}
use darcoin.Interp.Bounds.{Limited, eval_script-enough}
use darcoin.Interp.Rounds.{Rounds, here, round, start-Rounds-Limited, eval_script_iff-Rounds}
use darcoin.Interp.Branches.{IsBalanced}
use darcoin.Interp.Branches.Balance.{eval_script-IsBalanced}
use darcoin.Interp.Multisig.{IsMatched, match_signatures_iff-IsMatched}
use darcoin.Interp.Standard.{script_hash_output, eval_script-script_hash_output}
use darcoin.Interp.KeyHash.{key_hash_output, eval_script-key_hash_output}
use darcoin.Interp.Verify.{valid, aborted, verify_redeem, verify_output, verify_script}
use darcoin.Interp.Verify.Laws.{verify_script-not-aborted, with_p2sh, verify_script-p2sh}
use darcoin.Interp.SignatureCache.{SigData, check_sig}
use darcoin.Interp.SignatureCache.Laws.{AllVerified, check_sig-AllVerified}

-- A digest of 20 bytes that tells the first bytes apart.
abbrev digest_20 : Bytes → Bytes
digest_20 [] = replicate 20 0
digest_20 (b ∷ r) = replicate 20 b

abbrev crypto : Crypto
crypto = record {
  ripemd160 = digest_20;
  sha1 = digest_20;
  sha256 = λ b. b;
  check_sig = λ sig key code. bytes_eq sig key;
}

abbrev flags : Flags
flags = record { p2sh = true; strictenc = false; even_s = false; nocache = false }

-- OP_DUP OP_IF OP_ENDIF
abbrev branches : Bytes
branches = 0x76 ∷ 0x63 ∷ 0x68 ∷ []

abbrev one : Bytes
one = 1 ∷ []

script_num-serialize_example : script_num (serialize (negsuc 254)) ≡ some (negsuc 254)
script_num-serialize_example = script_num-serialize (negsuc 254) (omega arith)

eval_script-enough_example :
    (eval_loop crypto flags 7 branches (start (one ∷ []) branches) ≢ unfinished)
    × (eval_script crypto flags (one ∷ []) branches
        ≡ finish (eval_loop crypto flags 7 branches (start (one ∷ []) branches)))
eval_script-enough_example =
    eval_script-enough crypto flags (one ∷ []) branches 7 (omega arith) (omega arith)

abbrev doubled : Machine
doubled = record { stack = one ∷ one ∷ []; altstack = []; exec = []; op_count = 1; code = branches }

dup_round :
    step crypto flags
      (record { opcode = 0x76; pushed = []; rest = 0x63 ∷ 0x68 ∷ [] })
      (start (one ∷ []) branches)
    ≡ some doubled
unfolding step execute run_instr instr_of is_disabled run_stack_op dup_1
dup_round = refl

start-Rounds-Limited_example : Limited doubled
start-Rounds-Limited_example =
    start-Rounds-Limited crypto flags (one ∷ []) branches (0x63 ∷ 0x68 ∷ []) doubled (omega arith) (
      round (record { opcode = 0x76; pushed = []; rest = 0x63 ∷ 0x68 ∷ [] })
        (get_op-opcode 0x76 _ refl) dup_round here)

eval_script_iff-Rounds_example :
    (eval_script crypto flags (one ∷ []) branches ≡ some (one ∷ [])) ↔ (
      (3 ≤ 10000)
      × (m : Machine) × Rounds crypto flags branches (start (one ∷ []) branches) [] m
      × (m.stack ≡ (one ∷ []))
      × (m.exec ≡ []))
eval_script_iff-Rounds_example = eval_script_iff-Rounds crypto flags (one ∷ []) (one ∷ []) branches

eval_script-script_hash_output_example :
    eval_script crypto flags ((0x51 ∷ []) ∷ []) (script_hash_output (replicate 20 0x51))
    ≡ some (one ∷ [])
unfolding bytes_eq
eval_script-script_hash_output_example =
    eval_script-script_hash_output crypto flags (replicate 20 0x51) (0x51 ∷ []) [] refl
      (omega arith)

eval_script-key_hash_output_example :
    eval_script crypto flags ((2 ∷ []) ∷ (2 ∷ []) ∷ []) (key_hash_output (replicate 20 2))
    ≡ some (one ∷ [])
unfolding bytes_eq is_canonical_signature is_canonical_pub_key
eval_script-key_hash_output_example =
    eval_script-key_hash_output crypto flags (replicate 20 2) (2 ∷ []) (2 ∷ []) [] refl
      (omega arith)

-- A script of one push, of the script OP_1.
abbrev spending : Bytes
spending = 1 ∷ 0x51 ∷ []

abbrev paid : Bytes
paid = script_hash_output (replicate 20 0x51)

verify_script-not-aborted_example : verify_script crypto flags spending paid ≢ aborted
verify_script-not-aborted_example = verify_script-not-aborted crypto flags spending paid

spends : verify_script crypto (with_p2sh true flags) spending paid ≡ valid
unfolding verify_script verify_output verify_redeem eval_script eval_loop step execute run_instr
    instr_of is_disabled run_hash equal bytes_eq get_op is_push_only push_loop is_pay_to_script_hash
    cast_to_bool serialize magnitude_bytes put_sign
spends = refl

verify_script-p2sh_example : verify_script crypto (with_p2sh false flags) spending paid ≡ valid
verify_script-p2sh_example = verify_script-p2sh crypto flags spending paid spends

abbrev verifies : ℕ → Bytes → Bytes → Bool
verifies hash sig key = bytes_eq sig (5 ∷ [])

abbrev cached : List SigData
cached = record { hash = 9; sig = 5 ∷ []; key = 2 ∷ replicate 32 1 } ∷ []

check_sig-AllVerified_example :
    ((check_sig verifies
        (λ n. n)
        (pos 2)
        flags
        (λ t. t)
        0
        (5 ∷ 1 ∷ [])
        (2 ∷ replicate 32 1)
        cached).0
      ≡ (check_sig verifies
          (λ n. n)
          (pos 2)
          flags
          (λ t. t)
          0
          (5 ∷ 1 ∷ [])
          (2 ∷ replicate 32 1)
          []).0)
    × AllVerified verifies (
        (check_sig verifies
          (λ n. n)
          (pos 2)
          flags
          (λ t. t)
          0
          (5 ∷ 1 ∷ [])
          (2 ∷ replicate 32 1)
          cached).1)
unfolding bytes_eq
check_sig-AllVerified_example =
    check_sig-AllVerified verifies (λ n. n) (pos 2) flags (λ t. t) 0 (5 ∷ 1 ∷ [])
      (2 ∷ replicate 32 1) cached (refl, tt)

-- OP_IF OP_ELSE OP_ENDIF OP_1
abbrev two_ways : Bytes
two_ways = 0x63 ∷ 0x67 ∷ 0x68 ∷ 0x51 ∷ []

runs_two_ways : eval_script crypto flags (one ∷ []) two_ways ≡ some (one ∷ [])
unfolding eval_script eval_loop step execute run_instr run_if instr_of is_disabled get_op
    cast_to_bool serialize magnitude_bytes put_sign
runs_two_ways = refl

eval_script-IsBalanced_example : IsBalanced 0 two_ways
eval_script-IsBalanced_example =
    eval_script-IsBalanced crypto flags (one ∷ []) (one ∷ []) two_ways runs_two_ways

match_signatures_iff-IsMatched_example :
    (match_signatures bytes_eq ((1 ∷ []) ∷ (3 ∷ []) ∷ []) ((1 ∷ []) ∷ (2 ∷ []) ∷ (3 ∷ []) ∷ [])
      ≡ true)
    ↔ IsMatched bytes_eq ((1 ∷ []) ∷ (3 ∷ []) ∷ []) ((1 ∷ []) ∷ (2 ∷ []) ∷ (3 ∷ []) ∷ [])
match_signatures_iff-IsMatched_example =
    match_signatures_iff-IsMatched bytes_eq ((1 ∷ []) ∷ (3 ∷ []) ∷ [])
      ((1 ∷ []) ∷ (2 ∷ []) ∷ (3 ∷ []) ∷ [])
