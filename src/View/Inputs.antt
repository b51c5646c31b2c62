-- ===== src/View/Inputs.antt =====
-- The methods of CCoinsViewCache on the inputs of a transaction: GetOutputFor, GetValueIn, HaveInputs.
-- `none` is a failed assertion.
pub mod Laws
use darcoin.Common.{
  ℕ, Bool, true, false, Option, none, some, List, [], ◌∷◌, ℤ, pos, if◌then◌else◌, get_elem?, add64,
}
use darcoin.Tx.{Transaction, is_coin_base}
use darcoin.Tx.Input.{TxIn}
use darcoin.Tx.Output.{TxOut}
use darcoin.Coins.{Coins, is_available}
use darcoin.View.{CoinsView}
use darcoin.View.Cache.{ViewCache, fetch_coins, have_coins}

-- assert(coins.IsAvailable(n)); return coins.vout[n]
pub output_of : Coins → ℕ → Option TxOut
output_of c n = if is_available c n then get_elem? c.vout n else none

module _ {S : Type 0} (v : CoinsView S) where
  abbrev pub use_coins {ℓ} :
      {A : Type ℓ} → Option Coins × ViewCache S → (Coins → ViewCache S → Option A) → Option A
  use_coins (none, s) f = none
  use_coins (some c, s) f = f c s

  -- `const CCoins &coins = GetCoins(hash)`, with the assertion of GetCoins, and what follows it.
  abbrev pub with_coins {ℓ} :
      {A : Type ℓ} → ViewCache S → ℕ → (Coins → ViewCache S → Option A) → Option A
  with_coins s k f = use_coins (fetch_coins v s k) f

  abbrev pub with_output {ℓ} : {A : Type ℓ} → Option TxOut → (TxOut → Option A) → Option A
  with_output none f = none
  with_output (some o) f = f o

  -- GetOutputFor
  pub get_output_for : ViewCache S → TxIn → Option (TxOut × ViewCache S)
  unfolding output_of
  get_output_for s i =
      with_coins s i.prevout.hash
        (λ c s'. with_output (output_of c i.prevout.n) (λ o. some (o, s')))

  abbrev pub with_pair {ℓ κ} :
      {A : Type ℓ} {B : Type κ} → Option (A × ViewCache S) → (A → ViewCache S → Option B) → Option B
  with_pair none f = none
  with_pair (some (a, s)) f = f a s

  pub value_in_loop : List TxIn → ViewCache S → ℤ → Option (ℤ × ViewCache S)
  value_in_loop [] s total = some (total, s)
  value_in_loop (i ∷ r) s total =
      with_pair (get_output_for s i) (λ o s'. value_in_loop r s' (add64 total o.value))

  -- GetValueIn
  pub get_value_in : ViewCache S → Transaction → Option (ℤ × ViewCache S)
  get_value_in s tx = if is_coin_base tx then some (pos 0, s) else value_in_loop tx.vin s (pos 0)

  -- The first loop of HaveInputs.
  pub have_all : List TxIn → ViewCache S → Bool × ViewCache S
  have_all [] s = (true, s)
  have_all (i ∷ r) s =
      let h = have_coins v s i.prevout.hash in
      let rest = have_all r h.1 in if h.0 then rest else (false, h.1)

  -- The second loop of HaveInputs.
  pub available_all : List TxIn → ViewCache S → Option (Bool × ViewCache S)
  available_all [] s = some (true, s)
  available_all (i ∷ r) s = with_coins s i.prevout.hash (λ c s'.
      let rest = available_all r s' in
      if is_available c i.prevout.n then rest else some (false, s'))

  abbrev pub then_available : List TxIn → Bool × ViewCache S → Option (Bool × ViewCache S)
  then_available vin (true, s) = available_all vin s
  then_available vin (false, s) = some (false, s)

  -- HaveInputs
  pub have_inputs : ViewCache S → Transaction → Option (Bool × ViewCache S)
  have_inputs s tx =
      if is_coin_base tx then some (true, s) else then_available tx.vin (have_all tx.vin s)
