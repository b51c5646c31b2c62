-- ===== src/Tx/Check.antt =====
-- CheckTransaction of main.cpp: the rules for a transaction that need no context.
pub mod Laws
pub mod Verdict
use Prim.Native.String.{String}
use darcoin.Common.{
  ℕ, Bool, true, false, not, ◌||◌, Option, none, some, List, [], ◌∷◌, ℤ, pos, ltb, if◌then◌else◌,
  ltb_ℤ, add64, length,
}
use darcoin.Validation.{ValidationState, dos, reject_invalid}
use darcoin.Tx.{Transaction, is_coin_base}
use darcoin.Tx.Prevout
use darcoin.Tx.Prevout.{OutPoint}
use darcoin.Tx.Input.{TxIn}
use darcoin.Tx.Output.{TxOut, money_range, max_money}
use darcoin.Tx.Size.{serialize_size}

-- MAX_BLOCK_SIZE of main.h
abbrev pub max_block_size : ℕ
max_block_size = 5000000

-- A call of state.DoS with the code REJECT_INVALID.
pub record Reject : Type 0 where
  pub level : ℕ
  pub reason : String

abbrev pub reject : ℕ → String → Option Reject
reject level reason = some (record { level = level; reason = reason })

-- The loop over the outputs, with the running total nValueOut.
pub check_outputs : List TxOut → ℤ → Option Reject
check_outputs [] total = none
check_outputs (o ∷ r) total =
    let total' = add64 total o.value in
    let rest = check_outputs r total' in
    if ltb_ℤ o.value (pos 0)
    then reject 100 "bad-txns-vout-negative"
    else if ltb_ℤ (pos max_money) o.value
    then reject 100 "bad-txns-vout-toolarge"
    else if not (money_range total')
    then reject 100 "bad-txns-txouttotal-toolarge"
    else rest

-- vInOutPoints.count
pub count_outpoint : OutPoint → List OutPoint → Bool
count_outpoint p [] = false
count_outpoint p (q ∷ r) = Prevout.eq q p || count_outpoint p r

-- The loop over the inputs; `seen` is the set vInOutPoints.
pub check_duplicates : List TxIn → List OutPoint → Option Reject
check_duplicates [] seen = none
check_duplicates (i ∷ r) seen =
    let rest = check_duplicates r (i.prevout ∷ seen) in
    if count_outpoint i.prevout seen then reject 100 "bad-txns-inputs-duplicate" else rest

-- The loop over the inputs of a transaction that is no coinbase.
pub check_null_prevouts : List TxIn → Option Reject
check_null_prevouts [] = none
check_null_prevouts (i ∷ r) =
    if Prevout.is_null i.prevout then reject 10 "bad-txns-prevout-null" else check_null_prevouts r

-- vin[0].scriptSig.size()
abbrev pub first_script_size : List TxIn → ℕ
first_script_size [] = 0
first_script_size (i ∷ r) = length i.script_sig

abbrev pub is_empty {ℓ} : {A : Type ℓ} → List A → Bool
is_empty [] = true
is_empty (x ∷ xs) = false

-- The next check is made where the last one passed.
infixr 20 ◌orelse◌
abbrev pub ◌orelse◌ : Option Reject → Option Reject → Option Reject
none orelse b = b
some r orelse b = some r

abbrev pub check_inputs_nonempty : List TxIn → Option Reject
check_inputs_nonempty vin = if is_empty vin then reject 10 "bad-txns-vin-empty" else none

abbrev pub check_outputs_nonempty : List TxOut → Option Reject
check_outputs_nonempty vout = if is_empty vout then reject 10 "bad-txns-vout-empty" else none

abbrev pub check_size : Transaction → Option Reject
check_size tx =
    if ltb max_block_size (serialize_size tx) then reject 100 "bad-txns-oversize" else none

-- The last check: the script of a coinbase, or the null inputs of any other transaction.
pub check_coin_base : Transaction → Option Reject
check_coin_base tx =
    let n = first_script_size tx.vin in
    if is_coin_base tx
    then (if ltb n 2 || ltb 100 n then reject 100 "bad-cb-length" else none)
    else check_null_prevouts tx.vin

-- The first call of state.DoS that CheckTransaction makes, if any.
pub find_reject : Transaction → Option Reject
find_reject tx =
    check_inputs_nonempty tx.vin
    orelse check_outputs_nonempty tx.vout
    orelse check_size tx
    orelse check_outputs tx.vout (pos 0)
    orelse check_duplicates tx.vin []
    orelse check_coin_base tx

abbrev pub report : ValidationState → Option Reject → Bool × ValidationState
report st none = (true, st)
report st (some r) = dos st r.level false reject_invalid r.reason false

-- CheckTransaction
pub check_transaction : Transaction → ValidationState → Bool × ValidationState
check_transaction tx st = report st (find_reject tx)
