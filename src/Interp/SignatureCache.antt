-- ===== src/Interp/SignatureCache.antt =====
-- CSignatureCache and CheckSig of script.cpp, and CPubKey of key.h.
pub mod Laws
pub mod Size
use darcoin.Common.{
  ℕ, zero, suc, ◌+◌, ◌-◌, Bool, true, false, not, ◌&&◌, ◌||◌, Option, none, some, List, [], ◌∷◌, ℤ,
  pos, negsuc, ltb, ltb_ℤ, leb, ◌==◌, if◌then◌else◌, length, take, Bytes, bytes_eq,
}
use darcoin.Script.Num.{last_byte}
use darcoin.Interp.Canonical.{Flags, byte_at}

-- CPubKey::GetLen
abbrev pub get_len : ℕ → ℕ
get_len header =
    if header == 2 || header == 3
    then 33
    else if header == 4 || (header == 6 || header == 7)
    then 65
    else 0

-- CPubKey(vch), with the bytes begin() to end(); the others are not read.
abbrev pub pub_key : Bytes → Bytes
pub_key [] = []
pub_key (header ∷ r) =
    if not (get_len header == 0) && get_len header == length (header ∷ r) then header ∷ r else []

-- IsValid
abbrev pub is_valid : Bytes → Bool
is_valid key = ltb 0 (length key)

-- sigdata_type
pub record SigData : Type 0 where
  pub hash : ℕ
  pub sig : Bytes
  pub key : Bytes

-- operator< of vectors of bytes
unfoldable pub bytes_lt : Bytes → Bytes → Bool
bytes_lt xs [] = false
bytes_lt [] (y ∷ ys) = true
bytes_lt (x ∷ xs) (y ∷ ys) = ltb x y || (x == y && bytes_lt xs ys)

-- operator< of the tuples
abbrev pub lt : SigData → SigData → Bool
lt a b =
    ltb a.hash b.hash
    || (a.hash == b.hash
        && (bytes_lt a.sig b.sig || (bytes_eq a.sig b.sig && bytes_lt a.key b.key)))

abbrev pub eq : SigData → SigData → Bool
eq a b = a.hash == b.hash && (bytes_eq a.sig b.sig && bytes_eq a.key b.key)

-- Get on setValid, a list in order.
unfoldable pub get : SigData → List SigData → Bool
get k [] = false
get k (x ∷ r) = eq k x || get k r

-- setValid.insert
unfoldable pub insert : SigData → List SigData → List SigData
insert k [] = k ∷ []
insert k (x ∷ r) =
    let rest = insert k r in if eq k x then x ∷ r else if lt k x then k ∷ x ∷ r else x ∷ rest

-- erase(*lower_bound((hash, {}, {}))); `none` where the iterator is at the end.
unfoldable pub erase_from : ℕ → List SigData → Option (List SigData)
erase_from hash [] = none
erase_from hash (x ∷ r) =
    let rest = erase_from hash r in
    if ltb x.hash hash then elim rest [ none ↦ none | some r' ↦ some (x ∷ r') ] else some r

abbrev pub drop_first : List SigData → List SigData
drop_first [] = []
drop_first (x ∷ r) = r

abbrev pub or_first : Option (List SigData) → List SigData → List SigData
or_first none s = drop_first s
or_first (some s') s = s'

-- One round of the eviction, on GetRandHash().
unfoldable pub evict : ℕ → List SigData → List SigData
evict random s = or_first (erase_from random s) s

-- The eviction. `random` gives the random hashes by the size of the set; each round takes one element,
-- so that its size is rounds enough.
unfoldable pub evict_loop : ℕ → (ℕ → ℕ) → ℕ → List SigData → List SigData
evict_loop zero random most s = s
evict_loop (suc fuel) random most s =
    let rest = evict_loop fuel random most (evict (random (length s)) s) in
    if ltb most (length s) then rest else s

-- Set, where `most` is the -maxsigcachesize argument.
unfoldable pub set : (ℕ → ℕ) → ℤ → SigData → List SigData → List SigData
set random (negsuc n) k s = s
set random (pos zero) k s = s
set random (pos (suc n)) k s = insert k (evict_loop (length s) random (suc n) s)

-- nHashType, where the byte at the end of the signature agrees with it.
abbrev pub hash_type_of : ℕ → Bytes → Option ℕ
hash_type_of hash_type [] = none
hash_type_of hash_type (b ∷ r) =
    if hash_type == 0
    then some (last_byte (b ∷ r))
    else if hash_type == last_byte (b ∷ r)
    then some hash_type
    else none

-- CheckSig from SignatureHash on: the result and the cache. `verify` is CPubKey::Verify.
unfoldable pub verify_cached :
    (ℕ → Bytes → Bytes → Bool) → (ℕ → ℕ) → ℤ → Flags → SigData → List SigData → Bool × List SigData
verify_cached verify random most f k s =
    if get k s
    then (true, s)
    else if not (verify k.hash k.sig k.key)
    then (false, s)
    else (true, if f.nocache then s else set random most k s)

-- CheckSig, where `sighash` is SignatureHash of the code, the transaction and the input, by the
-- hash type.
unfoldable pub check_sig :
    (ℕ → Bytes → Bytes → Bool)
    → (ℕ → ℕ)
    → ℤ
    → Flags
    → (ℕ → ℕ)
    → ℕ
    → Bytes
    → Bytes
    → List SigData
    → Bool × List SigData
check_sig verify random most f sighash hash_type sig key s =
    if not (is_valid (pub_key key)) then (false, s) else elim (hash_type_of hash_type sig) [
      | none ↦ (false, s)
      | some t ↦
          verify_cached verify random most f
            (record { hash = sighash t; sig = take (length sig - 1) sig; key = pub_key key }) s
    ]
