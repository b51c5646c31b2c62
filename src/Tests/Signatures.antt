-- ===== src/Tests/Signatures.antt =====
-- What is signed of a transaction with two inputs and two outputs.
use darcoin.Common.{◌≡◌, refl, [], ◌∷◌, pos, true, false, arith}
use darcoin.Script.Termination.{get_op-opcode}
use darcoin.Tx.{Transaction}
use darcoin.Interp.SignatureHash.{Signing, write_signed, signature_hash}
use darcoin.Interp.SignatureHash.Code.{done, next}
use darcoin.Interp.SignatureHash.Copy.{signed_copy, write_plain, write_signed_lem}
use darcoin.Interp.SignatureHash.Notes.{change_notes, signature_hash-change_notes}

abbrev transfer : Transaction
transfer = record {
  version = pos 1;
  vin =
      record {
        prevout = record { hash = 7; n = 0 };
        txaddress = [];
        script_sig = 1 ∷ [];
        sequence = 5;
      }
      ∷ record {
        prevout = record { hash = 8; n = 1 };
        txaddress = [];
        script_sig = [];
        sequence = 6;
      }
      ∷ [];
  vout =
      record { value = pos 10; script_pub_key = 0xac ∷ [] }
      ∷ record { value = pos 20; script_pub_key = [] }
      ∷ [];
  lock_time = 0;
  message = [];
  document = [];
}

-- OP_CODESEPARATOR OP_CHECKSIG, under SIGHASH_SINGLE
abbrev second_input : Signing
second_input = record {
  script_code = 0xab ∷ 0xac ∷ [];
  n_in = 1;
  anyone_can_pay = false;
  hash_single = true;
  hash_none = false;
}

write_signed_example :
    write_signed second_input transfer ≡ write_plain (signed_copy second_input transfer)
write_signed_example =
    write_signed_lem second_input transfer
      (next (record { opcode = 0xab; pushed = []; rest = 0xac ∷ [] }) (get_op-opcode 0xab _ refl)
        (next (record { opcode = 0xac; pushed = []; rest = [] }) (get_op-opcode 0xac _ refl) done))
      (omega arith) (λ e. omega arith)

signature_hash-change_notes_example :
    signature_hash (λ b. b) (0xac ∷ []) (change_notes (λ i. 9 ∷ []) (1 ∷ []) (2 ∷ []) transfer) 0 1
    ≡ signature_hash (λ b. b) (0xac ∷ []) transfer 0 1
signature_hash-change_notes_example =
    signature_hash-change_notes (λ b. b) (λ i. 9 ∷ []) (1 ∷ []) (2 ∷ []) (0xac ∷ []) transfer 0 1
