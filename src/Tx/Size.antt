-- ===== src/Tx/Size.antt =====
-- GetSerializeSize(tx, SER_NETWORK, PROTOCOL_VERSION), from the READWRITE lines of core.h.
use darcoin.Common.{ℕ, ◌+◌, ◌%◌, ◌^◌, List, [], ◌∷◌, length, Bytes}
use darcoin.Serialize.CompactSize.{compact_size_size}
use darcoin.Tx.{Transaction}
use darcoin.Tx.Input.{TxIn}
use darcoin.Tx.Output.{TxOut}

-- A std::string, a script or a vector of bytes.
abbrev pub bytes_size : Bytes → ℕ
bytes_size b = compact_size_size (length b) + length b

-- COutPoint is written as it stands in memory: 32 + 4 bytes.
abbrev pub tx_in_size : TxIn → ℕ
tx_in_size i = 36 + bytes_size i.txaddress + bytes_size i.script_sig + 4

abbrev pub tx_out_size : TxOut → ℕ
tx_out_size o = 8 + bytes_size o.script_pub_key

abbrev sum_sizes {ℓ} : {A : Type ℓ} → (A → ℕ) → List A → ℕ
sum_sizes f [] = 0
sum_sizes f (x ∷ xs) = f x + sum_sizes f xs

abbrev vector_size {ℓ} : {A : Type ℓ} → (A → ℕ) → List A → ℕ
vector_size f xs = compact_size_size (length xs) + sum_sizes f xs

-- The sum is an unsigned int.
unfoldable pub serialize_size : Transaction → ℕ
serialize_size tx =
    (4
      + vector_size tx_in_size tx.vin
      + vector_size tx_out_size tx.vout
      + 4
      + bytes_size tx.message
      + bytes_size tx.document)
    % 2 ^ 32
