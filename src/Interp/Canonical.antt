-- ===== src/Interp/Canonical.antt =====
-- IsCanonicalPubKey and IsCanonicalSignature of script.cpp.
use Prim.Native.Nat.{bit_and}
use darcoin.Common.{
  ℕ, ◌+◌, ◌-◌, Bool, true, false, not, ◌&&◌, ◌||◌, Option, none, some, ltb, leb, ◌==◌,
  if◌then◌else◌, length, get_elem?, Bytes,
}

-- The flags of VerifyScript and EvalScript.
pub record Flags : Type 0 where
  pub p2sh : Bool
  pub strictenc : Bool
  pub even_s : Bool
  pub nocache : Bool

abbrev pub byte_or_zero : Option ℕ → ℕ
byte_or_zero none = 0
byte_or_zero (some b) = b

-- v[i]; the conditions before each read keep it in range.
abbrev pub byte_at : Bytes → ℕ → ℕ
byte_at v i = byte_or_zero (get_elem? v i)

-- IsCanonicalPubKey
unfoldable pub is_canonical_pub_key : Flags → Bytes → Bool
is_canonical_pub_key flags key =
    if not flags.strictenc
    then true
    else if ltb (length key) 33
    then false
    else if byte_at key 0 == 4
    then length key == 65
    else if byte_at key 0 == 2 || byte_at key 0 == 3
    then length key == 33
    else false

-- The checks of R and S, a number of `size` bytes from `start` on: the type before it, its length, its
-- sign, its padding.
abbrev pub is_canonical_number : Bytes → ℕ → ℕ → Bool
is_canonical_number sig start size =
    if not (byte_at sig (start - 2) == 2)
    then false
    else if size == 0
    then false
    else if not (bit_and (byte_at sig start) 0x80 == 0)
    then false
    else not (ltb 1 size && (byte_at sig start == 0 && bit_and (byte_at sig (start + 1)) 0x80 == 0))

abbrev pub are_canonical_numbers : Flags → Bytes → ℕ → ℕ → Bool
are_canonical_numbers flags sig len_r len_s =
    if not (len_r + len_s + 7 == length sig)
    then false
    else is_canonical_number sig 4 len_r
      && (is_canonical_number sig (6 + len_r) len_s
          && not (flags.even_s && not (bit_and (byte_at sig (6 + len_r + len_s - 1)) 1 == 0)))

-- IsCanonicalSignature
unfoldable pub is_canonical_signature : Flags → Bytes → Bool
is_canonical_signature flags sig =
    let n = length sig in
    let hash_type = bit_and (byte_at sig (n - 1)) 0x7f in
    let len_r = byte_at sig 3 in
    if not flags.strictenc
    then true
    else if ltb n 9
    then false
    else if ltb 73 n
    then false
    else if ltb hash_type 1 || ltb 3 hash_type
    then false
    else if not (byte_at sig 0 == 0x30)
    then false
    else if not (byte_at sig 1 == n - 3)
    then false
    else if leb n (5 + len_r)
    then false
    else are_canonical_numbers flags sig len_r (byte_at sig (5 + len_r))
