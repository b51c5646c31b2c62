-- ===== src/Serialize/CompactSize/Laws.antt =====
-- WriteCompactSize, ReadCompactSize and GetSizeOfCompactSize fit together.
use native.Mathlib.Nat.{pow-suc}
use darcoin.Common.{
  ℕ, zero, suc, ◌+◌, ◌*◌, ◌/◌, ◌%◌, ◌^◌, ◌≤◌, ◌<◌, ◌≡◌, refl, [], ◌∷◌, ◌++◌, ltb, if◌then◌else◌,
  length, All, Bytes, arith,
}
use darcoin.Serialize.{Read, ok, fail, too_large, ◌>>=◌, max_size, write_le, read_le}
use darcoin.Serialize.CompactSize.{compact_size_size, write_compact_size, read_compact_size}

abbrev pub IsByte : ℕ → Type 0
IsByte b = b < 256

pub length-write_le : (k v : ℕ) → length (write_le k v) ≡ k
unfolding write_le
length-write_le zero v = refl
length-write_le (suc k) v = omega (arith, length-write_le k (v / 256))

pub read_le-write_le :
    (k v : ℕ) (rest : Bytes) → v < 256 ^ k → read_le k (write_le k v ++ rest) ≡ ok v rest
unfolding write_le read_le
read_le-write_le zero v rest h = ground arith
read_le-write_le (suc k) v rest h = ground (arith, pow-suc 256 k, read_le-write_le k (v / 256) rest)

read_le-byte : (b : ℕ) (s : Bytes) → read_le 1 (b ∷ s) ≡ ok b s
unfolding read_le
read_le-byte b s = ground arith

-- What a read says of the bytes that it took.
abbrev Takes : (ℕ → Bytes) → Bytes → Read ℕ → Type 0
Takes write s (ok v rest) = write v ++ rest ≡ s
Takes write s (fail e) = Unit {0}

abbrev Below : ℕ → Read ℕ → Type 0
Below n (ok v rest) = v < n
Below n (fail e) = Unit {0}

byte_then :
    (k c : ℕ) (s : Bytes) (r : Read ℕ)
    → c < 256
    → Takes (write_le k) s r × Below (256 ^ k) r
    → Takes (write_le (suc k)) (c ∷ s) (r >>= λ v rest. ok (c + 256 * v) rest)
      × Below (256 ^ suc k) (r >>= λ v rest. ok (c + 256 * v) rest)
unfolding write_le
byte_then k c s (ok v rest) h (t, b) =
    let low : (c + 256 * v) % 256 ≡ c = omega arith in
    let high : (c + 256 * v) / 256 ≡ v = omega arith in (ground arith, omega (arith, pow-suc 256 k))
byte_then k c s (fail e) h t = (tt, tt)

read_le-Takes :
    (k : ℕ) (s : Bytes)
    → All IsByte s
    → Takes (write_le k) s (read_le k s) × Below (256 ^ k) (read_le k s)
unfolding read_le
read_le-Takes zero s b = unfold write_le in (refl, omega arith)
read_le-Takes (suc k) [] b = (tt, tt)
read_le-Takes (suc k) (c ∷ s) b = byte_then k c s (read_le k s) b.0 (read_le-Takes k s b.1)

write_le-byte : (n : ℕ) → n < 253 → write_le 1 n ≡ n ∷ []
unfolding write_le
write_le-byte n h = ground arith

-- A size is written in as many bytes as GetSizeOfCompactSize says, and read back whatever follows,
-- unless it is above MAX_SIZE: then the read throws.
pub read-write_compact_size :
    (n : ℕ) (rest : Bytes)
    → n < 2 ^ 64
    → (length (write_compact_size n) ≡ compact_size_size n)
      × (read_compact_size (write_compact_size n ++ rest)
          ≡ (if ltb max_size n then fail too_large else ok n rest))
unfolding write_compact_size read_compact_size compact_size_size
read-write_compact_size n rest h = ground (
  arith,
  length-write_le 1 n,
  length-write_le 2 n,
  length-write_le 4 n,
  length-write_le 8 n,
  read_le-write_le 1 n rest,
  read_le-write_le 2 n rest,
  read_le-write_le 4 n rest,
  read_le-write_le 8 n rest,
  read_le-byte 253 (write_le 2 n ++ rest),
  read_le-byte 254 (write_le 4 n ++ rest),
  read_le-byte 255 (write_le 8 n ++ rest),
)

-- No size has two codes: whatever a read accepts is what WriteCompactSize writes for the result.
pub write-read_compact_size :
    (s rest : Bytes) (n : ℕ)
    → All IsByte s
    → read_compact_size s ≡ ok n rest
    → (write_compact_size n ++ rest ≡ s) × (n ≤ max_size)
unfolding write_compact_size read_compact_size
write-read_compact_size [] rest n b e = unfold read_le in cc
write-read_compact_size (c ∷ s) rest n b e = ground (
  arith,
  read_le-byte c s,
  write_le-byte c,
  read_le-Takes 2 s b.1,
  read_le-Takes 4 s b.1,
  read_le-Takes 8 s b.1,
)
