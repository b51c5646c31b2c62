-- ===== src/Interp/SignatureHash.antt =====
-- CTransactionSignatureSerializer and SignatureHash of script.cpp.
pub mod Code
pub mod Copy
pub mod Notes
use Prim.Native.Nat.{bit_and}
use darcoin.Common.{
  ℕ, zero, suc, ◌+◌, ◌-◌, Bool, not, ◌&&◌, ◌||◌, Option, none, some, List, [], ◌∷◌, ◌++◌, negsuc,
  leb, ◌==◌, if◌then◌else◌, length, get_elem?, take, Bytes,
}
use darcoin.Serialize.{ok, fail, write_le}
use darcoin.Serialize.CompactSize.{write_compact_size}
use darcoin.Script.{operand_size, get_op, with_op}
use darcoin.Script.Num.{from_le}
use darcoin.Tx.{Transaction}
use darcoin.Tx.Input.{TxIn}
use darcoin.Tx.Output.{TxOut}
use darcoin.Tx.Serialize.{unsigned, write_vector, write_out_point, write_tx_out}

-- The serializer's members, but for the transaction.
pub record Signing : Type 0 where
  pub script_code : Bytes
  pub n_in : ℕ
  pub anyone_can_pay : Bool
  pub hash_single : Bool
  pub hash_none : Bool

-- The serializer for a hash type; SIGHASH_NONE is 2, SIGHASH_SINGLE 3 and SIGHASH_ANYONECANPAY 0x80.
abbrev pub signing : Bytes → ℕ → ℕ → Signing
signing code n_in hash_type = record {
  script_code = code;
  n_in = n_in;
  anyone_can_pay = not (bit_and hash_type 0x80 == 0);
  hash_single = bit_and hash_type 0x1f == 3;
  hash_none = bit_and hash_type 0x1f == 2;
}

-- Where GetOp leaves the iterator when it fails: behind the opcode and the size that it could read.
abbrev pub stopped_at : Bytes → Bytes
stopped_at [] = []
stopped_at (c ∷ s) = elim (operand_size c s) [ fail e ↦ s | ok n r ↦ r ]

-- nCodeSeparators, over the script from `it` on; OP_CODESEPARATOR is 0xab.
unfoldable pub count_separators : ℕ → Bytes → ℕ
count_separators zero s = 0
count_separators (suc fuel) s =
    with_op (get_op s) 0
      (λ op. (if op.opcode == 0xab then 1 else 0) + count_separators fuel op.rest)

-- The second loop of SerializeScriptCode, from itBegin and it on.
unfoldable pub copy_code : ℕ → Bytes → Bytes → Bytes
copy_code zero begin s = take (length begin - length s) begin
copy_code (suc fuel) begin s =
    with_op (get_op s) (take (length begin - length (stopped_at s)) begin) (λ op.
      (if op.opcode == 0xab then take (length begin - length op.rest - 1) begin else [])
      ++ copy_code fuel (if op.opcode == 0xab then op.rest else begin) op.rest)

-- SerializeScriptCode
unfoldable pub write_script_code : Bytes → Bytes
write_script_code s =
    write_compact_size (length s - count_separators (length s) s) ++ copy_code (length s) s s

-- SerializeInput, on the input with index k.
abbrev pub write_input : Signing → ℕ → TxIn → Bytes
write_input g k i =
    write_out_point i.prevout
    ++ ((if k == g.n_in then write_script_code g.script_code else write_vector [])
        ++ (if not (k == g.n_in) && (g.hash_single || g.hash_none)
            then write_le 4 0
            else write_le 4 i.sequence))

-- CTxOut()
abbrev pub null_out : TxOut
null_out = record { value = negsuc 0; script_pub_key = [] }

-- SerializeOutput, on the output with index k.
abbrev pub write_output : Signing → ℕ → TxOut → Bytes
write_output g k o =
    if g.hash_single && not (k == g.n_in) then write_tx_out null_out else write_tx_out o

-- The loops over the inputs and the outputs, from the index k on.
unfoldable pub write_from {ℓ} : {A : Type ℓ} → (ℕ → A → Bytes) → ℕ → List A → Bytes
write_from write k [] = []
write_from write k (x ∷ r) = write k x ++ write_from write (k + 1) r

abbrev pub write_signed_input : Signing → Option TxIn → Bytes
write_signed_input g none = []
write_signed_input g (some i) = write_input g g.n_in i

-- The inputs: the one that is signed, or all. The caller has compared n_in with their number.
unfoldable pub write_inputs : Signing → List TxIn → Bytes
write_inputs g vin =
    if g.anyone_can_pay
    then write_compact_size 1 ++ write_signed_input g (get_elem? vin g.n_in)
    else write_compact_size (length vin) ++ write_from (write_input g) 0 vin

-- nOutputs
abbrev pub output_count : Signing → List TxOut → ℕ
output_count g vout = if g.hash_none then 0 else if g.hash_single then g.n_in + 1 else length vout

unfoldable pub write_outputs : Signing → List TxOut → Bytes
write_outputs g vout =
    write_compact_size (output_count g vout)
    ++ write_from (write_output g) 0 (take (output_count g vout) vout)

-- Serialize
unfoldable pub write_signed : Signing → Transaction → Bytes
write_signed g tx =
    write_le 4 (unsigned 32 tx.version)
    ++ (write_inputs g tx.vin ++ (write_outputs g tx.vout ++ write_le 4 tx.lock_time))

-- SignatureHash, a uint256. The hash function, Hash of hash.h, is an argument.
unfoldable pub signature_hash : (Bytes → Bytes) → Bytes → Transaction → ℕ → ℕ → ℕ
signature_hash hash code tx n_in hash_type =
    if leb (length tx.vin) n_in
    then 1
    else if bit_and hash_type 0x1f == 3 && leb (length tx.vout) n_in
    then 1
    else from_le (hash (write_signed (signing code n_in hash_type) tx ++ write_le 4 hash_type))
