-- ===== src/Interp/SignatureHash/Notes.antt =====
-- The fields of CTransaction and CTxIn (core.h) that SignatureHash (script.cpp) leaves out.
use darcoin.Common.{ℕ, zero, suc, ◌+◌, ◌≡◌, refl, ap, List, [], ◌∷◌, ◌++◌, length, get_elem?, Bytes}
use darcoin.Tx.{Transaction}
use darcoin.Tx.Input.{TxIn}
use darcoin.Interp.SignatureHash.{
  Signing, write_input, write_signed_input, write_inputs, write_from, write_signed, signature_hash,
}

abbrev pub change_addresses : (TxIn → Bytes) → List TxIn → List TxIn
change_addresses a [] = []
change_addresses a (i ∷ r) = record i { txaddress = a i } ∷ change_addresses a r

-- The transaction with other addresses, another message and another document.
abbrev pub change_notes : (TxIn → Bytes) → Bytes → Bytes → Transaction → Transaction
change_notes a message document tx = record tx {
  vin = change_addresses a tx.vin;
  message = message;
  document = document;
}

length-change_addresses :
    (a : TxIn → Bytes) (s : List TxIn) → length (change_addresses a s) ≡ length s
length-change_addresses a [] = refl
length-change_addresses a (i ∷ r) = ap suc (length-change_addresses a r)

write_from-change_addresses :
    (g : Signing) (a : TxIn → Bytes) (k : ℕ) (s : List TxIn)
    → write_from (write_input g) k (change_addresses a s) ≡ write_from (write_input g) k s
unfolding write_from
write_from-change_addresses g a k [] = refl
write_from-change_addresses g a k (i ∷ r) =
    ap (λ b. write_input g k i ++ b) (write_from-change_addresses g a (k + 1) r)

write_signed_input-change_addresses :
    (g : Signing) (a : TxIn → Bytes) (s : List TxIn) (n : ℕ)
    → write_signed_input g (get_elem? (change_addresses a s) n)
      ≡ write_signed_input g (get_elem? s n)
write_signed_input-change_addresses g a [] n = refl
write_signed_input-change_addresses g a (i ∷ r) zero = refl
write_signed_input-change_addresses g a (i ∷ r) (suc n) =
    write_signed_input-change_addresses g a r n

write_inputs-change_addresses :
    (g : Signing) (a : TxIn → Bytes) (s : List TxIn)
    → write_inputs g (change_addresses a s) ≡ write_inputs g s
unfolding write_inputs
write_inputs-change_addresses g a s =
    rw
      (
        write_signed_input-change_addresses g a s g.n_in,
        length-change_addresses a s,
        write_from-change_addresses g a 0 s,
      )
      refl

-- The signature hash of a transaction stays the same when the addresses of its inputs, its message
-- and its document change, whatever the script code, the input and the hash type.
pub signature_hash-change_notes :
    (hash : Bytes → Bytes) (a : TxIn → Bytes) (message document code : Bytes) (tx : Transaction)
    (n_in hash_type : ℕ)
    → signature_hash hash code (change_notes a message document tx) n_in hash_type
      ≡ signature_hash hash code tx n_in hash_type
unfolding signature_hash write_signed
signature_hash-change_notes hash a message document code tx n_in hash_type =
    rw (length-change_addresses a tx.vin, write_inputs-change_addresses _ a tx.vin) refl
