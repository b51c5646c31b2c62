-- ===== src/Coins/Equality.antt =====
-- operator== of CCoins, and ClearUnspendable a second time.
use darcoin.Common.{
  ℕ, ◌≡◌, refl, Bool, Bool-cases, true, false, ◌&&◌, inl, inr, List, [], ◌∷◌, map, eqb_ℤ_iff,
  ==_self, arith,
}
use darcoin.Tx.{Transaction}
use darcoin.Tx.Output.{TxOut, eq_iff}
use darcoin.Coins.{
  Coins, clear_output, cleanup, clear_unspendable, coins_of, vout_eq, bool_eq, coins_eq, is_pruned,
}
use darcoin.Coins.Spend.{trim, trim_self, trim-IsTrimmed, cleanup_vout-trim}

vout_eq_self : (vout : List TxOut) → vout_eq vout vout ≡ true
unfolding vout_eq
vout_eq_self [] = refl
vout_eq_self (o ∷ r) = rw ((eq_iff o o).1 refl) (vout_eq_self r)

bool_eq_self : (b : Bool) → bool_eq b b ≡ true
bool_eq_self true = refl
bool_eq_self false = refl

pub coins_eq_self : (c : Coins) → coins_eq c c ≡ true
unfolding coins_eq
coins_eq_self c = elim (Bool-cases (is_pruned c && is_pruned c)) [
  | inl y ↦ rw y
  | inr n ↦ rw (
    n,
    bool_eq_self c.coin_base,
    ==_self c.height,
    (eqb_ℤ_iff c.version c.version).1 refl,
    vout_eq_self c.vout,
  )
]

clear_twice : (o : TxOut) → clear_output (clear_output o) ≡ clear_output o
unfolding clear_output
clear_twice o = ground arith

map_clear-trim :
    (vout : List TxOut)
    → map clear_output (trim (map clear_output vout)) ≡ trim (map clear_output vout)
unfolding trim
map_clear-trim [] = refl
map_clear-trim (o ∷ r) = ground (arith, clear_twice o, map_clear-trim r)

pub clear_unspendable-coins_of :
    (tx : Transaction) (height : ℕ) → clear_unspendable (coins_of tx height) ≡ coins_of tx height
unfolding coins_of clear_unspendable cleanup
clear_unspendable-coins_of tx height =
    let t : List TxOut = trim (map clear_output tx.vout) in
    rw (
      cleanup_vout-trim (map clear_output tx.vout),
      map_clear-trim tx.vout,
      cleanup_vout-trim t,
      trim_self t (trim-IsTrimmed (map clear_output tx.vout)),
    )
