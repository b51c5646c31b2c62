-- ===== src/Tx.antt =====
-- CTransaction of core.h and core.cpp, and IsFinalTx of main.cpp.
pub mod Prevout
pub mod Input
pub mod Output
pub mod Size
pub mod Check
pub mod Serialize
pub mod Laws
use darcoin.Common.{
  ℕ, zero, suc, ◌^◌, ◌-◌, Bool, true, false, not, ◌&&◌, ◌||◌, Option, none, some, List, [], ◌∷◌, ℤ,
  pos, ltb, leb, ◌==◌, if◌then◌else◌, ltb_ℤ, eqb_ℤ, add64, length, all, Bytes,
}
use Prevout
use Prevout.{uint_max}
use Input
use Input.{TxIn}
use Output
use Output.{TxOut, money_range}

pub record Transaction : Type 0 where
  pub version : ℤ
  pub vin : List TxIn
  pub vout : List TxOut
  pub lock_time : ℕ
  pub message : Bytes
  pub document : Bytes

abbrev pub is_coin_base_vin : List TxIn → Bool
is_coin_base_vin [] = false
is_coin_base_vin (i ∷ []) = Prevout.is_null i.prevout
is_coin_base_vin (i ∷ j ∷ r) = false

-- CTransaction::IsCoinBase
abbrev pub is_coin_base : Transaction → Bool
is_coin_base tx = is_coin_base_vin tx.vin

-- std::vector's operator==, over the elements' own
abbrev pub vector_eq {ℓ} : {A : Type ℓ} → (A → A → Bool) → List A → List A → Bool
vector_eq f [] [] = true
vector_eq f [] (b ∷ bs) = false
vector_eq f (a ∷ rest) [] = false
vector_eq f (a ∷ rest) (b ∷ bs) = f a b && vector_eq f rest bs

-- operator== of CTransaction, which does not read the message and the document.
unfoldable pub eq : Transaction → Transaction → Bool
unfolding Input.eq Output.eq
eq a b =
    eqb_ℤ a.version b.version
    && (vector_eq Input.eq a.vin b.vin
        && (vector_eq Output.eq a.vout b.vout && a.lock_time == b.lock_time))

-- The loop of CTransaction::GetValueOut over the outputs; `none` is the runtime_error it throws.
pub value_out_loop : List TxOut → ℤ → Option ℤ
value_out_loop [] total = some total
value_out_loop (o ∷ r) total =
    let total' = add64 total o.value in
    let rest = value_out_loop r total' in
    if not (money_range o.value) || not (money_range total') then none else rest

-- CTransaction::GetValueOut
pub get_value_out : Transaction → Option ℤ
unfolding value_out_loop
get_value_out tx = value_out_loop tx.vout (pos 0)

abbrev pub locktime_threshold : ℕ
locktime_threshold = 500000000

-- IsFinalTx. The height of the active chain and the adjusted time are arguments, which are read
-- where the caller gives 0.
unfoldable pub is_final_tx : Transaction → ℤ → ℤ → ℤ → ℤ → Bool
is_final_tx tx chain_height adjusted_time block_height block_time =
    let height = if eqb_ℤ block_height (pos 0) then chain_height else block_height in
    let time = if eqb_ℤ block_time (pos 0) then adjusted_time else block_time in
    let limit = if ltb tx.lock_time locktime_threshold then height else time in
    if tx.lock_time == 0
    then true
    else if ltb_ℤ (pos tx.lock_time) limit
    then true
    else all Input.is_final tx.vin

-- The first loop of CTransaction::IsNewerThan: the inputs spend the same outputs. The caller has
-- compared the lengths.
pub same_prevouts : List TxIn → List TxIn → Bool
same_prevouts [] olds = true
same_prevouts (i ∷ r) [] = false
same_prevouts (i ∷ r) (o ∷ olds) = Prevout.eq i.prevout o.prevout && same_prevouts r olds

-- One round of the second loop, on its two variables fNewer and nLowest.
pub newer_round : ℕ → ℕ → Bool × ℕ → Bool × ℕ
newer_round new old (newer, lowest) =
    if new == old
    then (newer, lowest)
    else let s : Bool × ℕ = if leb new lowest then (false, new) else (newer, lowest) in
      if ltb old s.1 then (true, old) else s

pub newer_loop : List TxIn → List TxIn → Bool × ℕ → Bool × ℕ
newer_loop [] olds s = s
newer_loop (i ∷ r) [] s = s
newer_loop (i ∷ r) (o ∷ olds) s = newer_loop r olds (newer_round i.sequence o.sequence s)

-- CTransaction::IsNewerThan
pub is_newer_than : Transaction → Transaction → Bool
unfolding same_prevouts newer_loop newer_round
is_newer_than tx old =
    if length tx.vin == length old.vin
    then if same_prevouts tx.vin old.vin
      then (newer_loop tx.vin old.vin (false, uint_max)).0
      else false
    else false
