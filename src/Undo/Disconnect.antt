-- ===== src/Undo/Disconnect.antt =====
-- UpdateCoins followed by the step of DisconnectBlock gives the coins back.
use mathlib.Core.Option.{some-injective}
use mathlib.Core.Path.{fun_ext}
use darcoin.Common.{
  ℕ, ◌≡◌, refl, ap, sym, subst, ◌∙◌, ◌≢◌, inl, inr, Bool, Bool-cases, true, false, Option, none,
  some, List, [], map, ◌==◌, ==_iff, ==_self, if◌then◌else◌, All, arith,
}
use darcoin.Tx.{Transaction, is_coin_base}
use darcoin.Tx.Check.Laws.{Distinct}
use darcoin.Coins.{Coins, TxInUndo, no_coins, coins_of, is_pruned}
use darcoin.Coins.Equality.{coins_eq_self, clear_unspendable-coins_of}
use darcoin.View.{CoinsView, IsCoinsView}
use darcoin.View.Cache.{ViewCache}
use darcoin.View.Cache.Contract.{look, set_same}
use darcoin.View.Inputs.Laws.{Store, inputs_available}
use darcoin.Undo.{
  align_version, outs_match, spend_inputs, add_outputs, update_coins, remove_outputs, disconnect_tx,
}
use darcoin.Undo.Store.{
  write, spend_from, restore_to, Follows, Follows-some, fetch_as, prepend-nil, spend_inputs-Follows,
  restore_inputs-Follows, set_after,
}
use darcoin.Undo.Store.RoundTrip.{IsGood, restore-spend_from, restore_to-write}
use darcoin.Undo.Store.Totality.{spend_from-total}

align_self : (c : Coins) → align_version c c ≡ c
align_self c = ground arith

-- The outputs that UpdateCoins adds are those that DisconnectBlock expects.
outs_match_self : (tx : Transaction) (height : ℕ) → outs_match (coins_of tx height) tx height ≡ true
unfolding outs_match
outs_match_self tx height =
    rw (clear_unspendable-coins_of tx height, align_self (coins_of tx height)) (coins_eq_self _)

-- What can be seen of an entry: a transaction with nothing unspent counts as none.
abbrev pub visible : Option Coins → Option Coins
visible none = none
visible (some c) = if is_pruned c then none else some c

-- The inputs taken by UpdateCoins: none for a coinbase.
abbrev inputs_taken : Transaction → Store → Option (List TxInUndo × Store)
inputs_taken tx f = if is_coin_base tx then some ([], f) else spend_from tx.vin f

abbrev inputs_restored : Transaction → List TxInUndo → Store → Option (Bool × Store)
inputs_restored tx us f = if is_coin_base tx then some (true, f) else restore_to tx.vin us f true

inputs_taken-total :
    (tx : Transaction) (f : Store)
    → inputs_available f tx ≡ true
    → Distinct (map (λ i. i.prevout) tx.vin)
    → (r : List TxInUndo × Store) × (inputs_taken tx f ≡ some r)
inputs_taken-total tx f a d = elim (Bool-cases (is_coin_base tx)) [
  | inl y ↦ (([], f), rw y)
  | inr n ↦ rw n (spend_from-total tx.vin f (rw n at a) d)
]

-- With the new transaction's entry written behind, the undo data restore the rest.
inputs_restored-taken :
    (tx : Transaction) (f f' : Store) (us : List TxInUndo) (t : ℕ) (c : Coins)
    → IsGood f
    → inputs_taken tx f ≡ some (us, f')
    → All (λ i. i.prevout.hash ≢ t) tx.vin
    → inputs_restored tx us (write f' t c) ≡ some (true, write f t c)
inputs_restored-taken tx f f' us t c g e h = elim (Bool-cases (is_coin_base tx)) [
  | inl y ↦
      let p : some ([], f) ≡ some (us, f') = rw y at e in
      let q : f' ≡ f =
        sym (ap (λ (x : List TxInUndo × Store). x.1) (some-injective ([], f) (us, f') p)) in
      rw (y, q)
  | inr n ↦
      rw (
        n,
        restore_to-write tx.vin us f' t c true h,
        restore-spend_from tx.vin f f' us g (rw n at e),
      )
]

write_twice : (f : Store) (k : ℕ) (c d : Coins) → write (write f k c) k d ≡ write f k d
write_twice f k c d = fun_ext (λ j. ground arith)

visible-write :
    (f : Store) (t k : ℕ) → visible (f t) ≡ none → visible (write f t no_coins k) ≡ visible (f k)
visible-write f t k h = elim (Bool-cases (t == k)) [
  | inl y ↦ rw y (sym h ∙ ap (λ j. visible (f j)) ((==_iff t k).0 y))
  | inr n ↦ rw n refl
]

module _ {S : Type 0} (v : CoinsView S) (l : IsCoinsView v) where
  inputs-Follows :
      (s : ViewCache S) (tx : Transaction)
      → Follows v l
          (if is_coin_base tx then some ([], s) else spend_inputs v tx.vin s [])
          (inputs_taken tx (look v l s))
  inputs-Follows s tx = elim (Bool-cases (is_coin_base tx)) [
    | inl y ↦ rw y (refl, refl)
    | inr n ↦ rw n (
        subst (Follows v l (spend_inputs v tx.vin s []))
          (prepend-nil (spend_from tx.vin (look v l s)))
          (spend_inputs-Follows v l tx.vin s (look v l s) [] refl))
  ]

  add_outputs-Follows :
      (tx : Transaction) (height txid : ℕ) (us : List TxInUndo) (f : Store)
      (r : Option (List TxInUndo × ViewCache S))
      → Follows v l r (some (us, f))
      → Follows v l (add_outputs v tx height txid r) (some (us, write f txid (coins_of tx height)))
  add_outputs-Follows tx height txid us f none h = h
  add_outputs-Follows tx height txid us f (some (us', s)) h =
      (h.0, rw (set_same v l s txid (coins_of tx height), h.1))

  update_coins-Follows :
      (s : ViewCache S) (tx : Transaction) (height txid : ℕ) (us : List TxInUndo) (f : Store)
      → inputs_taken tx (look v l s) ≡ some (us, f)
      → Follows v l (update_coins v s tx height txid) (some (us, write f txid (coins_of tx height)))
  unfolding update_coins
  update_coins-Follows s tx height txid us f e =
      add_outputs-Follows tx height txid us f _ (subst (Follows v l _) e (inputs-Follows s tx))

  -- Removing the new outputs finds them as they were added.
  remove_lem :
      (s : ViewCache S) (tx : Transaction) (height txid : ℕ) (f : Store)
      → look v l s ≡ write f txid (coins_of tx height)
      → ((remove_outputs v s tx height txid true).0 ≡ true)
        × (look v l (remove_outputs v s tx height txid true).1 ≡ write f txid no_coins)
  unfolding remove_outputs
  remove_lem s tx height txid f e =
      rw (fetch_as v l s (write f txid (coins_of tx height)) txid e, ==_self txid)
        (
          outs_match_self tx height,
          set_after v l s (write f txid (coins_of tx height)) txid no_coins e
              ∙ write_twice f txid (coins_of tx height) no_coins,
        )

  disconnect_tx-Follows :
      (s : ViewCache S) (tx : Transaction) (height txid : ℕ) (us : List TxInUndo) (f : Store)
      → look v l s ≡ write f txid (coins_of tx height)
      → Follows v l
          (disconnect_tx v s tx height txid us false true)
          (inputs_restored tx us (write f txid no_coins))
  unfolding disconnect_tx
  disconnect_tx-Follows s tx height txid us f e =
      let r : ((remove_outputs v s tx height txid true).0 ≡ true)
          × (look v l (remove_outputs v s tx height txid true).1 ≡ write f txid no_coins) =
        remove_lem s tx height txid f e in
      elim (Bool-cases (is_coin_base tx)) [
        | inl y ↦ rw y r
        | inr n ↦
            rw (n, r.0)
              (restore_inputs-Follows v l tx.vin us (remove_outputs v s tx height txid true).1
                (write f txid no_coins) true r.1)
      ]

  -- UpdateCoins and then the step of DisconnectBlock for the same transaction, with the undo data that
  -- UpdateCoins made, succeed, find no inconsistency, and leave the cache showing what it showed
  -- before. The inputs are distinct, available and not outputs of the transaction itself, nothing
  -- unspent is shown under its hash, and all coins shown are pruned or clean with a height other than
  -- 0; an entry without unspent outputs counts as none.
  pub disconnect-update_coins :
      (s : ViewCache S) (tx : Transaction) (height txid : ℕ)
      → IsGood (look v l s)
      → inputs_available (look v l s) tx ≡ true
      → Distinct (map (λ i. i.prevout) tx.vin)
      → All (λ i. i.prevout.hash ≢ txid) tx.vin
      → visible (look v l s txid) ≡ none
      → (us : List TxInUndo) × (s1 : ViewCache S) × (s2 : ViewCache S) × (update_coins v s tx height
            txid
          ≡ some (us, s1))
        × (disconnect_tx v s1 tx height txid us false true ≡ some (true, s2))
        × ((k : ℕ) → visible (look v l s2 k) ≡ visible (look v l s k))
  disconnect-update_coins s tx height txid g a d away fresh =
      let ((us, f), e) = inputs_taken-total tx (look v l s) a d in
      let (s1, e1, look1) =
        Follows-some v l _ us _ (update_coins-Follows s tx height txid us f e) in
      let (s2, e2, look2) = Follows-some v l _ true _ (
        subst (Follows v l _) (inputs_restored-taken tx (look v l s) f us txid no_coins g e away)
          (disconnect_tx-Follows s1 tx height txid us f look1)) in
      (
        us,
        s1,
        s2,
        e1,
        e2,
        λ k. ap (λ g. visible (g k)) look2 ∙ visible-write (look v l s) txid k fresh,
      )
