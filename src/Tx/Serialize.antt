-- ===== src/Tx/Serialize.antt =====
-- How COutPoint, CTxIn, CTxOut and CTransaction are written (core.h), and a vector of bytes
-- (serialize.h).
use darcoin.Common.{ℕ, ◌-◌, ◌%◌, ◌^◌, List, [], ◌∷◌, ◌++◌, ℤ, pos, negsuc, length, Bytes}
use darcoin.Serialize.{write_le}
use darcoin.Serialize.CompactSize.{write_compact_size}
use darcoin.Tx.{Transaction}
use darcoin.Tx.Prevout.{OutPoint}
use darcoin.Tx.Input.{TxIn}
use darcoin.Tx.Output.{TxOut}

-- A signed number of w bits in two's complement.
abbrev pub unsigned : ℕ → ℤ → ℕ
unsigned w (pos n) = n % 2 ^ w
unsigned w (negsuc n) = 2 ^ w - 1 - n % 2 ^ w

unfoldable pub write_vector : Bytes → Bytes
write_vector b = write_compact_size (length b) ++ b

-- FLATDATA of a hash of 32 bytes and an index of 4.
unfoldable pub write_out_point : OutPoint → Bytes
write_out_point o = write_le 32 o.hash ++ write_le 4 o.n

unfoldable pub write_tx_in : TxIn → Bytes
write_tx_in i =
    write_out_point i.prevout
    ++ (write_vector i.txaddress ++ (write_vector i.script_sig ++ write_le 4 i.sequence))

unfoldable pub write_tx_out : TxOut → Bytes
write_tx_out o = write_le 8 (unsigned 64 o.value) ++ write_vector o.script_pub_key

unfoldable pub write_each {ℓ} : {A : Type ℓ} → (A → Bytes) → List A → Bytes
write_each write [] = []
write_each write (x ∷ r) = write x ++ write_each write r

-- CTransaction
unfoldable pub write_transaction : Transaction → Bytes
write_transaction tx =
    write_le 4 (unsigned 32 tx.version)
    ++ (write_compact_size (length tx.vin)
        ++ (write_each write_tx_in tx.vin
            ++ (write_compact_size (length tx.vout)
                ++ (write_each write_tx_out tx.vout
                    ++ (write_le 4 tx.lock_time
                        ++ (write_vector tx.message ++ write_vector tx.document))))))
