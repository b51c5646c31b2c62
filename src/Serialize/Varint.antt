-- ===== src/Serialize/Varint.antt =====
-- VARINT of serialize.h: groups of seven bits, the highest first, each but the last with the top bit
-- set and less by one. `w` is the width of the unsigned type that is read or written, in bits.
pub mod Laws
use Prim.Native.Nat.{bit_and, bit_or}
use darcoin.Common.{
  ℕ, zero, suc, ◌+◌, ◌-◌, ◌*◌, ◌/◌, ◌%◌, ◌^◌, Option, none, some, List, [], ◌∷◌, leb, ◌==◌,
  if◌then◌else◌, Bytes,
}
use darcoin.Serialize.{Read, ok, fail, end_of_data}

-- The loop of GetSizeOfVarInt; `n` falls in each round, so `n + 1` rounds are enough.
size_loop : ℕ → ℕ → ℕ → ℕ
size_loop zero n ret = ret
size_loop (suc fuel) n ret =
    let rest = size_loop fuel (n / 128 - 1) (ret + 1) in if leb n 0x7f then ret + 1 else rest

-- GetSizeOfVarInt
pub varint_size : ℕ → ℕ
unfolding size_loop
varint_size n = size_loop (n + 1) n 0

-- `len ? 0x80 : 0x00`
abbrev top : Bytes → ℕ
top [] = 0
top (b ∷ bs) = 0x80

-- The loop of WriteVarInt. `out` holds tmp[len - 1], ..., tmp[0], and `room` is what is left of the
-- array; `none` is a write behind its end. The second loop writes the array backwards.
write_loop : ℕ → ℕ → Bytes → Option Bytes
write_loop zero n out = none
write_loop (suc room) n out =
    let out' = bit_or (bit_and n 0x7f) (top out) ∷ out in
    let rest = write_loop room (n / 128 - 1) out' in if leb n 0x7f then some out' else rest

-- WriteVarInt, with tmp[(sizeof(n) * 8 + 6) / 7]
pub write_varint : ℕ → ℕ → Option Bytes
unfolding write_loop
write_varint w n = write_loop ((w + 6) / 7) n []

read_loop : ℕ → Bytes → ℕ → Read ℕ
read_loop w [] n = fail end_of_data
read_loop w (c ∷ s) n =
    let n' = bit_or (n * 128 % 2 ^ w) (bit_and c 0x7f) in
    let more = read_loop w s ((n' + 1) % 2 ^ w) in if bit_and c 0x80 == 0 then ok n' s else more

-- ReadVarInt
pub read_varint : ℕ → Bytes → Read ℕ
unfolding read_loop
read_varint w s = read_loop w s 0
