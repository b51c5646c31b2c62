-- ===== src/Interp/Signatures.antt =====
-- The hashes and the signature operations of EvalScript (script.cpp), and Hash160 and Hash of hash.h.
use darcoin.Common.{
  ℕ, ◌+◌, Bool, true, false, ◌&&◌, Option, none, some, List, [], ◌∷◌, ℤ, pos, negsuc, ltb,
  if◌then◌else◌, length, take, drop, Bytes,
}
use darcoin.Script.{push_data}
use darcoin.Script.Num.{script_num, getint}
use darcoin.Script.Delete.{find_and_delete}
use darcoin.Interp.Stack.{Items}
use darcoin.Interp.Numeric.{push_result}
use darcoin.Interp.Canonical.{Flags, is_canonical_pub_key, is_canonical_signature}

-- The digests, of OpenSSL, and CheckSig for the transaction, the input, the hash type and the flags at
-- hand, on a signature, a public key and the code that is signed.
pub record Crypto : Type 0 where
  pub ripemd160 : Bytes → Bytes
  pub sha1 : Bytes → Bytes
  pub sha256 : Bytes → Bytes
  pub check_sig : Bytes → Bytes → Bytes → Bool

pub data HashOp : Type 0 where
  op_ripemd160 op_sha1 op_sha256 op_hash160 op_hash256 : HashOp

-- Hash160
abbrev pub hash160 : Crypto → Bytes → Bytes
hash160 c v = c.ripemd160 (c.sha256 v)

-- Hash
abbrev pub hash256 : Crypto → Bytes → Bytes
hash256 c v = c.sha256 (c.sha256 v)

abbrev pub digest : Crypto → HashOp → Bytes → Bytes
digest c op_ripemd160 v = c.ripemd160 v
digest c op_sha1 v = c.sha1 v
digest c op_sha256 v = c.sha256 v
digest c op_hash160 v = hash160 c v
digest c op_hash256 v = hash256 c v

unfoldable pub run_hash : Crypto → HashOp → Items → Option Items
run_hash c o [] = none
run_hash c o (v ∷ s) = some (digest c o v ∷ s)

-- IsCanonicalSignature(...) && IsCanonicalPubKey(...) && CheckSig(...)
abbrev pub accepts : Crypto → Flags → Bytes → Bytes → Bytes → Bool
accepts c flags code sig key =
    is_canonical_signature flags sig && (is_canonical_pub_key flags key && c.check_sig sig key code)

-- OP_CHECKSIG and OP_CHECKSIGVERIFY; `code` is the script from the last code separator on.
unfoldable pub run_checksig : Crypto → Flags → Bool → Bytes → Items → Option Items
run_checksig c flags verify code (key ∷ sig ∷ s) =
    push_result verify (accepts c flags (find_and_delete (push_data sig) code) sig key) s
run_checksig c flags verify code (key ∷ []) = none
run_checksig c flags verify code [] = none

-- The loop that drops the signatures from the code.
unfoldable pub delete_signatures : List Bytes → Bytes → Bytes
delete_signatures [] code = code
delete_signatures (sig ∷ r) code = delete_signatures r (find_and_delete (push_data sig) code)

-- The loop over the signatures and keys, from the top of the stack down, where neither have failed: it
-- ends with fSuccess false as soon as more signatures than keys are left.
unfoldable pub match_signatures : (Bytes → Bytes → Bool) → List Bytes → List Bytes → Bool
match_signatures ok [] keys = true
match_signatures ok (sig ∷ sigs) [] = false
match_signatures ok (sig ∷ sigs) (key ∷ keys) =
    let left = if ok sig key then sigs else sig ∷ sigs in
    let rest = match_signatures ok left keys in
    if ltb (length keys) (length left) then false else rest

abbrev pub with_count : Option ℤ → ℕ → (ℕ → Option (ℕ × Items)) → Option (ℕ × Items)
with_count none most f = none
with_count (some v) most f = elim (getint v) [
  | negsuc n ↦ none
  | pos n ↦ if ltb most n then none else f n
]

abbrev pub with_ops : ℕ → Option Items → Option (ℕ × Items)
with_ops n none = none
with_ops n (some s) = some (n, s)

-- The part from nSigsCount on, with the keys already taken off.
unfoldable pub run_signatures :
    Crypto → Flags → Bool → Bytes → ℕ → List Bytes → Items → Option (ℕ × Items)
run_signatures c flags verify code ops keys [] = none
run_signatures c flags verify code ops keys (m ∷ r) =
    with_count (script_num m) (length keys) (λ sigs.
      if ltb (length r) (sigs + 1)
      then none
      else with_ops ops (
          push_result verify
            (match_signatures (accepts c flags (delete_signatures (take sigs r) code)) (take sigs r)
              keys)
            (drop (sigs + 1) r)))

-- OP_CHECKMULTISIG and OP_CHECKMULTISIGVERIFY: nOpCount and the stack. One element more than the counts
-- ask for is taken off.
unfoldable pub run_checkmultisig : Crypto → Flags → Bool → Bytes → ℕ → Items → Option (ℕ × Items)
unfolding run_signatures
run_checkmultisig c flags verify code ops [] = none
run_checkmultisig c flags verify code ops (n ∷ s) = with_count (script_num n) 20 (λ keys.
    if ltb 201 (ops + keys)
    then none
    else if ltb (length s) (keys + 1)
    then none
    else run_signatures c flags verify code (ops + keys) (take keys s) (drop keys s))
