-- ===== src/Interp/SignatureHash/Copy.antt =====
-- CTransactionSignatureSerializer (script.cpp) against a modified copy of the transaction that is
-- written field by field.
use mathlib.Core.List.{append-nil}
use darcoin.Common.{
  ℕ, zero, suc, ◌+◌, ◌<◌, ◌≤◌, ◌≡◌, refl, sym, ap, ◌∙◌, Bool, true, false, not, ◌&&◌, ◌||◌,
  Bool-cases, Option-cases, Option, none, some, inl, inr, List, [], ◌∷◌, ◌++◌, ◌==◌, if◌then◌else◌,
  length, get_elem?, take, Bytes, arith,
}
use darcoin.Serialize.{write_le}
use darcoin.Serialize.CompactSize.{write_compact_size}
use darcoin.Tx.{Transaction}
use darcoin.Tx.Input.{TxIn}
use darcoin.Tx.Output.{TxOut}
use darcoin.Tx.Serialize.{unsigned, write_vector, write_out_point, write_tx_out, write_each}
use darcoin.Interp.SignatureHash.{
  Signing, write_input, write_inputs, null_out, write_output, write_from, output_count,
  write_outputs, write_signed,
}
use darcoin.Interp.SignatureHash.Code.{Parses, without_separators, write_script_code_lem}

-- A function of the index and the element, at each element.
abbrev pub map_from {ℓ} : {A : Type ℓ} → (ℕ → A → A) → ℕ → List A → List A
map_from f k [] = []
map_from f k (x ∷ r) = f k x ∷ map_from f (k + 1) r

-- The other inputs lose their script, and their sequence number under NONE and SINGLE; the one that
-- is signed has the script code.
abbrev pub copy_input : Signing → ℕ → TxIn → TxIn
copy_input g k i = record i {
  script_sig = if k == g.n_in then without_separators (length g.script_code) g.script_code else [];
  sequence = if not (k == g.n_in) && (g.hash_single || g.hash_none) then 0 else i.sequence;
}

abbrev pub alone : Signing → Option TxIn → List TxIn
alone g none = []
alone g (some i) = copy_input g g.n_in i ∷ []

-- Under ANYONECANPAY the other inputs are left out.
abbrev pub copy_inputs : Signing → List TxIn → List TxIn
copy_inputs g vin =
    if g.anyone_can_pay then alone g (get_elem? vin g.n_in) else map_from (copy_input g) 0 vin

-- Under SINGLE the outputs before the one with the index of the input are null.
abbrev pub copy_output : Signing → ℕ → TxOut → TxOut
copy_output g k o = if g.hash_single && not (k == g.n_in) then null_out else o

-- Under NONE no output is kept, under SINGLE those up to the index of the input.
abbrev pub copy_outputs : Signing → List TxOut → List TxOut
copy_outputs g vout =
    if g.hash_none
    then []
    else map_from (copy_output g) 0 (if g.hash_single then take (g.n_in + 1) vout else vout)

abbrev pub signed_copy : Signing → Transaction → Transaction
signed_copy g tx = record tx { vin = copy_inputs g tx.vin; vout = copy_outputs g tx.vout }

-- The fields of a transaction that a signature hash is made of, in their order.
abbrev pub write_plain_input : TxIn → Bytes
write_plain_input i =
    write_out_point i.prevout ++ (write_vector i.script_sig ++ write_le 4 i.sequence)

abbrev pub write_plain : Transaction → Bytes
write_plain tx =
    write_le 4 (unsigned 32 tx.version)
    ++ ((write_compact_size (length tx.vin) ++ write_each write_plain_input tx.vin)
        ++ ((write_compact_size (length tx.vout) ++ write_each write_tx_out tx.vout)
            ++ write_le 4 tx.lock_time))

length-map_from {ℓ} :
    {A : Type ℓ} → (f : ℕ → A → A) (k : ℕ) (s : List A) → length (map_from f k s) ≡ length s
length-map_from f k [] = refl
length-map_from f k (x ∷ r) = ap suc (length-map_from f (k + 1) r)

write_from-map_from {ℓ} :
    {A : Type ℓ}
    → (write : ℕ → A → Bytes) (plain : A → Bytes) (f : ℕ → A → A)
    → ((k : ℕ) (x : A) → write k x ≡ plain (f k x))
    → (k : ℕ) (s : List A) → write_from write k s ≡ write_each plain (map_from f k s)
unfolding write_from write_each
write_from-map_from write plain f h k [] = refl
write_from-map_from write plain f h k (x ∷ r) =
    rw (h k x, write_from-map_from write plain f h (k + 1) r) refl

write_input_lem :
    (g : Signing)
    → Parses g.script_code
    → (k : ℕ) (i : TxIn) → write_input g k i ≡ write_plain_input (copy_input g k i)
write_input_lem g p k i = elim (Bool-cases (k == g.n_in)) [
  | inl y ↦ rw (y, write_script_code_lem g.script_code p) refl
  | inr n ↦ elim (Bool-cases (g.hash_single || g.hash_none)) [
    | inl y ↦ rw (n, y) refl
    | inr m ↦ rw (n, m) refl
  ]
]

get_elem?-none {ℓ} : {A : Type ℓ} → (s : List A) (n : ℕ) → get_elem? s n ≡ none → length s ≤ n
get_elem?-none [] n e = omega arith
get_elem?-none (x ∷ s) zero e = cc
get_elem?-none (x ∷ s) (suc n) e = omega (arith, get_elem?-none s n e)

length-take {ℓ} : {A : Type ℓ} → (n : ℕ) (s : List A) → n ≤ length s → length (take n s) ≡ n
length-take zero s h = refl
length-take (suc n) [] h = absurd (omega (arith, h))
length-take (suc n) (x ∷ s) h = ap suc (length-take n s (omega (arith, h)))

take_all {ℓ} : {A : Type ℓ} → (s : List A) → take (length s) s ≡ s
take_all [] = refl
take_all (x ∷ s) = ap (λ r. x ∷ r) (take_all s)

write_inputs_lem :
    (g : Signing) (vin : List TxIn)
    → Parses g.script_code
    → g.n_in < length vin
    → write_inputs g vin
      ≡ write_compact_size (length (copy_inputs g vin))
        ++ write_each write_plain_input (copy_inputs g vin)
unfolding write_inputs write_each
write_inputs_lem g vin p h = elim (Bool-cases g.anyone_can_pay) [
  | inl y ↦ elim (Option-cases (get_elem? vin g.n_in)) [
    | inl e ↦ absurd (omega (arith, h, get_elem?-none vin g.n_in e))
    | inr (i, e) ↦
        rw (y, e)
          (ap (λ b. write_compact_size 1 ++ b)
            (write_input_lem g p g.n_in i
              ∙ sym (append-nil (write_plain_input (copy_input g g.n_in i)))))
  ]
  | inr n ↦
      rw (n, length-map_from (copy_input g) 0 vin)
        (ap (λ b. write_compact_size (length vin) ++ b)
          (write_from-map_from (write_input g) write_plain_input (copy_input g)
            (write_input_lem g p) 0 vin))
]

write_output_lem :
    (g : Signing) (k : ℕ) (o : TxOut) → write_output g k o ≡ write_tx_out (copy_output g k o)
write_output_lem g k o = elim (Bool-cases (g.hash_single && not (k == g.n_in))) [
  | inl y ↦ rw y refl
  | inr n ↦ rw n refl
]

-- nOutputs is the number of the outputs that are kept.
length-kept :
    (hash_none hash_single : Bool) (n : ℕ) (vout : List TxOut)
    → (hash_single ≡ true → n < length vout)
    → length (take (if hash_none then 0 else if hash_single then n + 1 else length vout) vout)
      ≡ (if hash_none then 0 else if hash_single then n + 1 else length vout)
length-kept true b n vout h = refl
length-kept false true n vout h = length-take (n + 1) vout (omega (arith, h refl))
length-kept false false n vout h = ap length (take_all vout)

map_from-kept :
    (hash_none hash_single : Bool) (n : ℕ) (f : ℕ → TxOut → TxOut) (vout : List TxOut)
    → map_from f 0 (take (if hash_none then 0 else if hash_single then n + 1 else length vout) vout)
      ≡ (if hash_none then [] else map_from f 0 (if hash_single then take (n + 1) vout else vout))
map_from-kept true b n f vout = refl
map_from-kept false true n f vout = refl
map_from-kept false false n f vout = ap (map_from f 0) (take_all vout)

write_outputs_lem :
    (g : Signing) (vout : List TxOut)
    → (g.hash_single ≡ true → g.n_in < length vout)
    → write_outputs g vout
      ≡ write_compact_size (length (copy_outputs g vout))
        ++ write_each write_tx_out (copy_outputs g vout)
unfolding write_outputs write_each write_from
write_outputs_lem g vout h =
    let kept : List TxOut = take (output_count g vout) vout in
    let size : length (map_from (copy_output g) 0 kept) ≡ output_count g vout =
      length-map_from (copy_output g) 0 kept
      ∙ length-kept g.hash_none g.hash_single g.n_in vout h in
    ap (λ n. write_compact_size n ++ write_from (write_output g) 0 kept) (sym size)
    ∙ ap (λ b. write_compact_size (length (map_from (copy_output g) 0 kept)) ++ b)
        (write_from-map_from (write_output g) write_tx_out (copy_output g) (write_output_lem g) 0
          kept)
    ∙ ap (λ t. write_compact_size (length t) ++ write_each write_tx_out t)
        (map_from-kept g.hash_none g.hash_single g.n_in (copy_output g) vout)

-- For a script code that GetOp reads to its end, an input of the transaction and, under SINGLE, an
-- output with its index, the serializer writes the version, the inputs without their addresses, the
-- outputs and the lock time of the modified copy of the transaction.
pub write_signed_lem :
    (g : Signing) (tx : Transaction)
    → Parses g.script_code
    → g.n_in < length tx.vin
    → (g.hash_single ≡ true → g.n_in < length tx.vout)
    → write_signed g tx ≡ write_plain (signed_copy g tx)
unfolding write_signed
write_signed_lem g tx p h k = rw (write_inputs_lem g tx.vin p h, write_outputs_lem g tx.vout k) refl
