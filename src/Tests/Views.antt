-- ===== src/Tests/Views.antt =====
-- The caches, and the way of a transaction into the coins and back, on a small cache.
use darcoin.Common.{
  ℕ, ◌≡◌, refl, inl, inr, Bool-cases, true, false, List, some, ◌==◌, lookup, arith,
}
use darcoin.Coins.{TxInUndo}
use darcoin.View.{IsCoinsView}
use darcoin.View.Base.{NoView, base_view, base_view-IsCoinsView}
use darcoin.View.Cache.{ViewCache, cache_view}
use darcoin.View.Cache.Contract.{look, cache_view-IsCoinsView}
use darcoin.View.Inputs.{have_inputs}
use darcoin.View.Inputs.Laws.{inputs_available, Answers, have_inputs-available}
use darcoin.Undo.{update_coins, disconnect_tx}
use darcoin.Undo.Store.RoundTrip.{IsGood}
use darcoin.Undo.Disconnect.{visible, disconnect-update_coins}
use darcoin.Tests.Data.{payment, funded}

cache_view-IsCoinsView_example : IsCoinsView (cache_view base_view)
cache_view-IsCoinsView_example = cache_view-IsCoinsView base_view base_view-IsCoinsView

have_inputs-available_example :
    Answers base_view base_view-IsCoinsView funded
      (inputs_available (look base_view base_view-IsCoinsView funded) payment)
      (have_inputs base_view funded payment)
have_inputs-available_example = have_inputs-available base_view base_view-IsCoinsView funded payment

funded-IsGood : IsGood (look base_view base_view-IsCoinsView funded)
unfolding look lookup base_view-IsCoinsView
funded-IsGood k = elim (Bool-cases (5 == k)) [
  | inl y ↦ rw y (inr (record { trimmed = ground arith; plain = ground arith }, ground arith))
  | inr n ↦ rw n tt
]

disconnect-update_coins_example :
    (us : List TxInUndo) × (s1 : ViewCache NoView) × (s2 : ViewCache NoView) × (update_coins
        base_view funded payment 20 9
      ≡ some (us, s1))
    × (disconnect_tx base_view s1 payment 20 9 us false true ≡ some (true, s2))
    × ((k : ℕ)
        → visible (look base_view base_view-IsCoinsView s2 k)
          ≡ visible (look base_view base_view-IsCoinsView funded k))
unfolding look lookup base_view-IsCoinsView
disconnect-update_coins_example =
    disconnect-update_coins base_view base_view-IsCoinsView funded payment 20 9 funded-IsGood refl
      (tt, tt) (ground arith) refl
