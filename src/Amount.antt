-- ===== src/Amount.antt =====
-- CTxOutCompressor::CompressAmount and DecompressAmount of core.cpp, on uint64_t.
pub mod RoundTrip
use darcoin.Common.{ℕ, zero, suc, ◌+◌, ◌-◌, ◌*◌, ◌/◌, ◌%◌, ◌^◌, ltb, ◌==◌, if◌then◌else◌}

abbrev pub u64 : ℕ
u64 = 2 ^ 64

-- while (n % 10 == 0 && e < 9) { n /= 10; e++; }, where 9 - e rounds are left: the number and e.
pub strip_zeros : ℕ → ℕ → ℕ → ℕ × ℕ
strip_zeros zero n e = (n, e)
strip_zeros (suc rounds) n e =
    let rest = strip_zeros rounds (n / 10) (e + 1) in if n % 10 == 0 then rest else (n, e)

-- What follows the loop. The assertion on the last digit is left out.
pub pack_amount : ℕ × ℕ → ℕ
pack_amount (n, e) =
    if ltb e 9
    then (1 + ((n / 10 * 9 % u64 + n % 10 - 1) % u64 * 10 % u64 + e)) % u64
    else (1 + (n - 1) * 10 % u64 + 9) % u64

-- CompressAmount
pub compress_amount : ℕ → ℕ
compress_amount n = if n == 0 then 0 else pack_amount (strip_zeros 9 n 0)

-- while (e) { n *= 10; e--; }
pub scale : ℕ → ℕ → ℕ
scale zero n = n
scale (suc e) n = scale e (n * 10 % u64)

-- The number before the loop, from x - 1.
pub unpack_amount : ℕ → ℕ
unpack_amount x =
    let y = x / 10 in if ltb (x % 10) 9 then (y / 9 * 10 % u64 + (y % 9 + 1)) % u64 else y + 1

-- DecompressAmount
pub decompress_amount : ℕ → ℕ
decompress_amount x = if x == 0 then 0 else scale ((x - 1) % 10) (unpack_amount (x - 1))
