-- ===== src/Serialize/Varint/Laws.antt =====
-- WriteVarInt, ReadVarInt and GetSizeOfVarInt fit together.
use darcoin.Common.{ℕ, zero, suc, ◌+◌, ◌-◌, ◌/◌, ◌%◌, [], ◌∷◌, leb, if◌then◌else◌, Bytes}

-- The bytes before the last for the groups above it, in plain arithmetic; `k` bounds their number.
prefix : ℕ → ℕ → Bytes → Bytes
prefix zero m out = out
prefix (suc k) m out =
    let out' = (m % 128 + 128) ∷ out in
    let rest = prefix k (m / 128 - 1) out' in if leb m 0x7f then out' else rest

-- The whole code of `n`, in plain arithmetic.
unfoldable pub code : ℕ → ℕ → Bytes
unfolding prefix
code k n = let rest = prefix k (n / 128 - 1) ((n % 128) ∷ []) in if leb n 0x7f then n ∷ [] else rest
