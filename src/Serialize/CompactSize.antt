-- ===== src/Serialize/CompactSize.antt =====
-- CompactSize of serialize.h: a size in 1, 3, 5 or 9 bytes.
pub mod Laws
use darcoin.Common.{ℕ, ◌+◌, List, [], ◌∷◌, ltb, leb, ◌==◌, if◌then◌else◌, Bytes}
use darcoin.Serialize.{Read, ok, fail, non_canonical, too_large, ◌>>=◌, max_size, write_le, read_le}

-- GetSizeOfCompactSize
unfoldable pub compact_size_size : ℕ → ℕ
compact_size_size n =
    if ltb n 253 then 1 else if leb n 0xffff then 3 else if leb n 0xffff_ffff then 5 else 9

-- WriteCompactSize
pub write_compact_size : ℕ → Bytes
write_compact_size n =
    if ltb n 253
    then write_le 1 n
    else if leb n 0xffff
    then 253 ∷ write_le 2 n
    else if leb n 0xffff_ffff
    then 254 ∷ write_le 4 n
    else 255 ∷ write_le 8 n

-- One of the three long forms, with the least number that it may hold.
abbrev pub read_long : ℕ → ℕ → Bytes → Read ℕ
read_long width least s =
    read_le width s >>= λ v rest. if ltb v least then fail non_canonical else ok v rest

-- ReadCompactSize
unfoldable pub read_compact_size : Bytes → Read ℕ
read_compact_size s =
    (read_le 1 s >>= λ c rest.
    if ltb c 253
    then ok c rest
    else if c == 253
    then read_long 2 253 rest
    else if c == 254
    then read_long 4 0x10000 rest
    else read_long 8 0x100000000 rest)
    >>= λ v rest. if ltb max_size v then fail too_large else ok v rest
