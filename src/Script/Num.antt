-- ===== src/Script/Num.antt =====
-- CScriptNum of script.h: the numbers of the script language, and CastToBool of script.cpp.
pub mod Laws
use Prim.Native.Nat.{bit_and, bit_or}
use darcoin.Common.{
  ℕ, zero, suc, ◌+◌, ◌-◌, ◌*◌, ◌/◌, ◌%◌, ◌^◌, Bool, true, false, not, ◌&&◌, Option, none, some,
  List, [], ◌∷◌, ℤ, pos, negsuc, pos_part, neg_part, ltb, leb, ◌==◌, if◌then◌else◌, ltb_ℤ, eqb_ℤ,
  sub_ℕ, length, Bytes,
}

-- The loop of serialize over absvalue; a uint64_t has 8 bytes.
unfoldable pub magnitude_bytes : ℕ → ℕ → Bytes
magnitude_bytes zero n = []
magnitude_bytes (suc fuel) n =
    let rest = magnitude_bytes fuel (n / 256) in if n == 0 then [] else bit_and n 0xff ∷ rest

-- The sign: a bit of the last byte, or a further byte where that bit is taken.
unfoldable pub put_sign : Bool → Bytes → Bytes
put_sign neg [] = []
put_sign neg (b ∷ []) =
    if not (bit_and b 0x80 == 0)
    then b ∷ (if neg then 0x80 else 0) ∷ []
    else (if neg then bit_or b 0x80 ∷ [] else b ∷ [])
put_sign neg (b ∷ c ∷ r) = b ∷ put_sign neg (c ∷ r)

-- serialize; the result of a value of 0 is empty. -value of the least int64_t is undefined in C++.
unfoldable pub serialize : ℤ → Bytes
unfolding magnitude_bytes put_sign
serialize v =
    put_sign (ltb_ℤ v (pos 0))
      (magnitude_bytes 8 (if ltb_ℤ v (pos 0) then neg_part v else pos_part v))

-- The loop of set_vch: the bytes do not overlap, so that | is a sum.
unfoldable pub from_le : Bytes → ℕ
from_le [] = 0
from_le (b ∷ r) = b + 256 * from_le r

-- vch.back()
abbrev pub last_byte : Bytes → ℕ
last_byte [] = 0
last_byte (b ∷ []) = b
last_byte (b ∷ c ∷ r) = last_byte (c ∷ r)

-- -n, as an integer
abbrev pub minus : ℕ → ℤ
minus n = sub_ℕ 0 n

-- set_vch; the bit that is cleared for a negative number is set, so that clearing it subtracts.
unfoldable pub set_vch : Bytes → ℤ
set_vch b =
    if not (bit_and (last_byte b) 0x80 == 0)
    then minus (from_le b - 0x80 * 256 ^ (length b - 1))
    else pos (from_le b)

-- CScriptNum(vch): `none` is the scriptnum_error; nMaxNumSize is 4.
unfoldable pub script_num : Bytes → Option ℤ
script_num b = if ltb 4 (length b) then none else some (set_vch b)

-- getint
abbrev pub getint : ℤ → ℤ
getint v =
    if ltb_ℤ (pos (2 ^ 31 - 1)) v
    then pos (2 ^ 31 - 1)
    else if ltb_ℤ v (negsuc (2 ^ 31 - 1))
    then negsuc (2 ^ 31 - 1)
    else v

-- CastToBool
unfoldable pub cast_to_bool : Bytes → Bool
cast_to_bool [] = false
cast_to_bool (b ∷ []) = not (b == 0) && not (b == 0x80)
cast_to_bool (b ∷ c ∷ r) = let rest = cast_to_bool (c ∷ r) in if b == 0 then rest else true
