-- ===== src/Tx/Check/Laws.antt =====
-- What CheckTransaction accepts.
use darcoin.Common.{
  ℕ, ◌+◌, ◌≤◌, ◌≡◌, refl, ◌≢◌, ◌↔◌, ◌⊎◌, inl, inr, Bool-cases, true, false, none, some, List, [],
  ◌∷◌, map, ℤ, pos, negsuc, pos_part, ◌+ℤ◌, add64, add64_exact, All, arith,
}
use darcoin.Validation.{ValidationState}
use darcoin.Tx.{Transaction, is_coin_base, get_value_out, value_out_loop}
use darcoin.Tx.Prevout
use darcoin.Tx.Prevout.{OutPoint, eq_iff, is_null_iff}
use darcoin.Tx.Input.{TxIn}
use darcoin.Tx.Output.{TxOut, max_money, IsMoney, money_range_iff}
use darcoin.Tx.Size.{serialize_size}
use darcoin.Tx.Check.{
  max_block_size, is_empty, check_outputs, count_outpoint, check_duplicates, check_null_prevouts,
  first_script_size, check_coin_base, find_reject, check_transaction,
}

-- The sum of the amounts, without a bound.
abbrev pub total_out : List TxOut → ℕ
total_out [] = 0
total_out (o ∷ r) = pos_part o.value + total_out r

-- No two are equal.
abbrev pub Distinct : List OutPoint → Type 0
Distinct [] = Unit {0}
Distinct (p ∷ r) = All (λ q. p ≢ q) r × Distinct r

-- A coinbase has a script of 2 to 100 bytes; any other transaction has no null input.
abbrev pub InputsAllowed : Transaction → Type 0
InputsAllowed tx =
    ((is_coin_base tx ≡ true) × (2 ≤ first_script_size tx.vin) × (first_script_size tx.vin ≤ 100))
    ⊎ ((is_coin_base tx ≡ false) × All (λ i. i.prevout ≢ Prevout.null) tx.vin)

-- What CheckTransaction demands, said without its loops.
pub record IsWellFormed (tx : Transaction) : Type 0 where
  pub has_inputs : tx.vin ≢ []
  pub has_outputs : tx.vout ≢ []
  pub fits : serialize_size tx ≤ max_block_size
  pub amounts : All (λ o. IsMoney o.value) tx.vout
  pub total : total_out tx.vout ≤ max_money
  pub distinct : Distinct (map (λ i. i.prevout) tx.vin)
  pub inputs : InputsAllowed tx

add64_money : (t : ℕ) (v : ℤ) → t ≤ max_money → IsMoney v → add64 (pos t) v ≡ pos (t + pos_part v)
unfolding ◌+ℤ◌
add64_money t (pos n) h m = ground (arith, add64_exact (pos t) (pos n))
add64_money t (negsuc n) h m = absurd (omega arith)

pub check_outputs_iff :
    (vout : List TxOut) (t : ℕ)
    → t ≤ max_money
    → (check_outputs vout (pos t) ≡ none)
      ↔ (All (λ o. IsMoney o.value) vout × (t + total_out vout ≤ max_money))
unfolding check_outputs
check_outputs_iff [] t h = ground arith
check_outputs_iff (o ∷ r) t h =
    ground (arith, add64_money t o.value h, check_outputs_iff r (t + pos_part o.value))

count_outpoint_iff :
    (p : OutPoint) (seen : List OutPoint) → (count_outpoint p seen ≡ false) ↔ All (λ q. q ≢ p) seen
unfolding count_outpoint
count_outpoint_iff p [] = ground arith
count_outpoint_iff p (q ∷ r) = ground (arith, eq_iff q p, count_outpoint_iff p r)

-- Neither among themselves nor with the set of those seen before.
abbrev Fresh : List TxIn → List OutPoint → Type 0
Fresh vin seen = All (λ i. All (λ q. q ≢ i.prevout) seen) vin

Fresh-cons :
    (p : OutPoint) (vin : List TxIn) (seen : List OutPoint)
    → Fresh vin (p ∷ seen) ↔ (All (λ q. p ≢ q) (map (λ i. i.prevout) vin) × Fresh vin seen)
Fresh-cons p [] seen = ground arith
Fresh-cons p (i ∷ r) seen = ground (arith, Fresh-cons p r seen)

pub check_duplicates_iff :
    (vin : List TxIn) (seen : List OutPoint)
    → (check_duplicates vin seen ≡ none) ↔ (Fresh vin seen × Distinct (map (λ i. i.prevout) vin))
unfolding check_duplicates
check_duplicates_iff [] seen = ground arith
check_duplicates_iff (i ∷ r) seen = ground (
  arith,
  count_outpoint_iff i.prevout seen,
  Fresh-cons i.prevout r seen,
  check_duplicates_iff r (i.prevout ∷ seen),
)

pub Fresh-nil : (vin : List TxIn) → Fresh vin []
Fresh-nil [] = tt
Fresh-nil (i ∷ r) = (tt, Fresh-nil r)

pub check_null_prevouts_iff :
    (vin : List TxIn) → (check_null_prevouts vin ≡ none) ↔ All (λ i. i.prevout ≢ Prevout.null) vin
unfolding check_null_prevouts
check_null_prevouts_iff [] = ground arith
check_null_prevouts_iff (i ∷ r) = ground (arith, is_null_iff i.prevout, check_null_prevouts_iff r)

check_coin_base_iff : (tx : Transaction) → (check_coin_base tx ≡ none) ↔ InputsAllowed tx
unfolding check_coin_base
check_coin_base_iff tx = elim (Bool-cases (is_coin_base tx)) [
  | inl e ↦ rw e (ground arith)
  | inr e ↦ rw e (ground (arith, check_null_prevouts_iff tx.vin))
]

pub is_empty_iff {ℓ} : {A : Type ℓ} (xs : List A) → (is_empty xs ≡ false) ↔ (xs ≢ [])
is_empty_iff [] = ground arith
is_empty_iff (x ∷ xs) = ground arith

find_reject_iff : (tx : Transaction) → (find_reject tx ≡ none) ↔ IsWellFormed tx
unfolding find_reject
find_reject_iff tx = ground (
  arith,
  is_empty_iff {0} tx.vin,
  is_empty_iff {0} tx.vout,
  check_outputs_iff tx.vout 0,
  check_duplicates_iff tx.vin [],
  Fresh-nil tx.vin,
  check_coin_base_iff tx,
)

-- CheckTransaction accepts a transaction exactly when it is well formed.
pub check_transaction_iff :
    (tx : Transaction) (st : ValidationState)
    → ((check_transaction tx st).0 ≡ true) ↔ IsWellFormed tx
unfolding check_transaction
check_transaction_iff tx st = ground (arith, find_reject_iff tx)

value_out_loop_iff :
    (vout : List TxOut) (t : ℕ) (v : ℤ)
    → t ≤ max_money
    → (value_out_loop vout (pos t) ≡ some v) ↔ (
        All (λ o. IsMoney o.value) vout
        × (t + total_out vout ≤ max_money)
        × (v ≡ pos (t + total_out vout)))
unfolding value_out_loop
value_out_loop_iff [] t v h = ground arith
value_out_loop_iff (o ∷ r) t v h = ground (
  arith,
  add64_money t o.value h,
  money_range_iff o.value,
  value_out_loop_iff r (t + pos_part o.value) v,
)

-- GetValueOut returns the exact sum, in any arithmetic, and throws exactly when an amount or the sum
-- is out of range.
pub get_value_out_iff :
    (tx : Transaction) (v : ℤ)
    → (get_value_out tx ≡ some v) ↔ (
        All (λ o. IsMoney o.value) tx.vout
        × (total_out tx.vout ≤ max_money)
        × (v ≡ pos (total_out tx.vout)))
unfolding get_value_out
get_value_out_iff tx v = ground (arith, value_out_loop_iff tx.vout 0 v)

-- GetValueOut does not throw on a transaction that CheckTransaction accepts.
pub get_value_out-check_transaction :
    (tx : Transaction) (st : ValidationState)
    → (check_transaction tx st).0 ≡ true
    → get_value_out tx ≡ some (pos (total_out tx.vout))
get_value_out-check_transaction tx st h =
    let w : IsWellFormed tx = (check_transaction_iff tx st).0 h in
    (get_value_out_iff tx _).1 (w.amounts, w.total, refl)
