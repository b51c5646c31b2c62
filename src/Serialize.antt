-- ===== src/Serialize.antt =====
-- The variable-length numbers of serialize.h: CompactSize and VARINT. A stream is a list of bytes.
pub mod Varint
pub mod CompactSize
use darcoin.Common.{
  ℕ, zero, suc, ◌+◌, ◌-◌, ◌*◌, ◌/◌, ◌%◌, ◌^◌, Bool, true, false, List, [], ◌∷◌, ◌++◌, ltb, leb,
  ◌==◌, if◌then◌else◌, Bytes,
}
use Prim.Native.Nat.{bit_and, bit_or}

-- The exceptions of a read: the end of the stream, a number that another form would encode, a size
-- above MAX_SIZE.
pub data ReadError : Type 0 where
  end_of_data non_canonical too_large : ReadError

-- What a read gives: the value and the rest of the stream, or an exception.
pub data Read {ℓ} (A : Type ℓ) : Type ℓ where
  ok : A → Bytes → Read A
  fail : ReadError → Read A

infixl 5 ◌>>=◌
abbrev pub ◌>>=◌ {ℓ κ} : {A : Type ℓ} {B : Type κ} → Read A → (A → Bytes → Read B) → Read B
ok a s >>= f = f a s
fail e >>= f = fail e

abbrev pub max_size : ℕ
max_size = 0x02000000

-- READDATA and WRITEDATA of an unsigned number of `n` bytes, the lowest byte first.
unfoldable pub write_le : ℕ → ℕ → Bytes
write_le zero v = []
write_le (suc n) v = (v % 256) ∷ write_le n (v / 256)

unfoldable pub read_le : ℕ → Bytes → Read ℕ
read_le zero s = ok 0 s
read_le (suc n) [] = fail end_of_data
read_le (suc n) (b ∷ s) = read_le n s >>= λ v rest. ok (b + 256 * v) rest
