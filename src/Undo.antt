-- ===== src/Undo.antt =====
-- UpdateCoins and DisconnectBlock of main.cpp: how a transaction of a block moves the coins of a
-- view forward and back. `none` is a failed assertion or a read behind the end of the undo data.
pub mod Store
pub mod Disconnect
use darcoin.Common.{
  ℕ, zero, suc, Bool, true, false, not, ◌&&◌, Option, none, some, List, [], ◌∷◌, ◌++◌, ℤ, pos, ◌==◌,
  if◌then◌else◌, ltb_ℤ, length,
}
use darcoin.Tx.{Transaction, is_coin_base}
use darcoin.Tx.Input.{TxIn}
use darcoin.Coins.{
  Coins, TxInUndo, no_coins, spend, coins_of, clear_unspendable, coins_eq, restore_output,
}
use darcoin.View.{CoinsView}
use darcoin.View.Cache.{
  ViewCache, fetch_coins, have_coins, set_coins, get_best_block, set_best_block,
}
use darcoin.View.Inputs.{with_coins}

-- if (outsBlock.nVersion < 0) outs.nVersion = outsBlock.nVersion
abbrev pub align_version : Coins → Coins → Coins
align_version outs block =
    if ltb_ℤ block.version (pos 0) then record outs { version = block.version } else outs

-- What DisconnectBlock compares, on the coins that the view has for the transaction.
pub outs_match : Coins → Transaction → ℕ → Bool
outs_match outs tx height =
    let block = coins_of tx height in coins_eq (align_version (clear_unspendable outs) block) block

abbrev pub spent_then {ℓ} :
    {A : Type ℓ} → Option (TxInUndo × Coins) → (TxInUndo → Coins → Option A) → Option A
spent_then none f = none
spent_then (some (u, c)) f = f u c

-- `CCoins coins; view.GetCoins(hash, coins)`
abbrev pub coins_or_new : Option Coins → Coins
coins_or_new none = no_coins
coins_or_new (some c) = c

module _ {S : Type 0} (v : CoinsView S) where
  -- The loop of UpdateCoins over the inputs; `acc` is txundo.vprevout. The reference that GetCoins
  -- returns is into the map of the cache, so the spend is written there.
  pub spend_inputs : List TxIn → ViewCache S → List TxInUndo → Option (List TxInUndo × ViewCache S)
  spend_inputs [] s acc = some (acc, s)
  spend_inputs (i ∷ r) s acc = with_coins v s i.prevout.hash (λ c s1.
      spent_then (spend c i.prevout.n)
        (λ u c'. spend_inputs r (set_coins v s1 i.prevout.hash c').1 (acc ++ u ∷ [])))

  abbrev pub add_outputs :
      Transaction
      → ℕ
      → ℕ
      → Option (List TxInUndo × ViewCache S)
      → Option (List TxInUndo × ViewCache S)
  add_outputs tx height txid none = none
  add_outputs tx height txid (some (undos, s)) =
      some (undos, (set_coins v s txid (coins_of tx height)).1)

  -- UpdateCoins(tx, state, inputs, txundo, nHeight, txhash), with an empty txundo
  pub update_coins : ViewCache S → Transaction → ℕ → ℕ → Option (List TxInUndo × ViewCache S)
  update_coins s tx height txid =
      add_outputs tx height txid
        (if is_coin_base tx then some ([], s) else spend_inputs tx.vin s [])

  abbrev pub restore_input : ViewCache S → TxIn → TxInUndo → Bool → Bool × ViewCache S
  restore_input s i u clean =
      let f = fetch_coins v s i.prevout.hash in
      let r = restore_output (coins_or_new f.0) i.prevout.n u in
      (clean && r.1, (set_coins v f.1 i.prevout.hash r.0).1)

  abbrev pub restore_after :
      TxIn → TxInUndo → Option (Bool × ViewCache S) → Option (Bool × ViewCache S)
  restore_after i u none = none
  restore_after i u (some (clean, s)) = some (restore_input s i u clean)

  -- The loop over the inputs, from the last to the first.
  pub restore_inputs : List TxIn → List TxInUndo → ViewCache S → Bool → Option (Bool × ViewCache S)
  restore_inputs [] us s clean = some (clean, s)
  restore_inputs (i ∷ r) [] s clean = none
  restore_inputs (i ∷ r) (u ∷ us) s clean = restore_after i u (restore_inputs r us s clean)

  -- Checks the outputs of a transaction against those in the view, and removes them: outs = CCoins()
  -- through the reference, where there is an entry.
  abbrev pub remove_found :
      Transaction → ℕ → ℕ → Bool → Option Coins × ViewCache S → Bool × ViewCache S
  remove_found tx height txid clean (none, s) = (clean && outs_match no_coins tx height, s)
  remove_found tx height txid clean (some c, s) =
      (clean && outs_match c tx height, (set_coins v s txid no_coins).1)

  pub remove_outputs : ViewCache S → Transaction → ℕ → ℕ → Bool → Bool × ViewCache S
  remove_outputs s tx height txid clean = remove_found tx height txid clean (fetch_coins v s txid)

  -- The body of the loop over the transactions of the block. `undos` is vtxundo[i - 1].vprevout, and
  -- `first` is i == 0.
  pub disconnect_tx :
      ViewCache S → Transaction → ℕ → ℕ → List TxInUndo → Bool → Bool → Option (Bool × ViewCache S)
  disconnect_tx s tx height txid undos first clean =
      let r = remove_outputs s tx height txid clean in
      if first
      then some r
      else if is_coin_base tx
      then some r
      else restore_inputs tx.vin undos r.1 r.0
