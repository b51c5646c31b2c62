-- ===== src/View/Inputs/Laws.antt =====
-- HaveInputs answers for the coins that the cache shows.
use darcoin.Common.{
  ℕ, ◌≡◌, refl, sym, inl, inr, Bool, Bool-cases, true, false, ◌&&◌, ◌||◌, Option, Option-cases,
  none, some, List, [], ◌∷◌, all,
}
use darcoin.Tx.{Transaction, is_coin_base}
use darcoin.Tx.Input.{TxIn}
use darcoin.Coins.{Coins, is_available}
use darcoin.View.{CoinsView, IsCoinsView, is_some}
use darcoin.View.Cache.{ViewCache, fetch_coins}
use darcoin.View.Cache.Contract.{look, fetch_pair, fetch_same, have_pair}
use darcoin.View.Inputs.{have_all, available_all, then_available, have_inputs}

-- A map of coins, as a view shows it.
abbrev pub Store : Type 0
Store = ℕ → Option Coins

abbrev pub has_output : Option Coins → ℕ → Bool
has_output none n = false
has_output (some c) n = is_available c n

abbrev pub can_spend : Store → TxIn → Bool
can_spend f i = has_output (f i.prevout.hash) i.prevout.n

-- What HaveInputs is to find out.
abbrev pub inputs_available : Store → Transaction → Bool
inputs_available f tx = is_coin_base tx || all (can_spend f) tx.vin

and_false : (b : Bool) → (b && false) ≡ false
and_false true = refl
and_false false = refl

module _ {S : Type 0} (v : CoinsView S) (l : IsCoinsView v) where
  -- A call that asserts nothing false answers `a`, and leaves what the cache shows as it was.
  abbrev pub Answers {ℓ} : {A : Type ℓ} → ViewCache S → A → Option (A × ViewCache S) → Type ℓ
  Answers s a r = (s' : ViewCache S) × (r ≡ some (a, s')) × (look v l s' ≡ look v l s)

  abbrev pub after : ViewCache S → ℕ → ViewCache S
  after s k = (fetch_coins v s k).1

  all_have : ViewCache S → List TxIn → Bool
  all_have s vin = all (λ i. is_some (look v l s i.prevout.hash)) vin

  available_all_lem :
      (vin : List TxIn) (s : ViewCache S)
      → all_have s vin ≡ true
      → Answers s (all (can_spend (look v l s)) vin) (available_all v vin s)
  unfolding available_all all_have
  available_all_lem [] s h = (s, refl, refl)
  available_all_lem (i ∷ r) s h = elim (Option-cases (look v l s i.prevout.hash)) [
    | inl e ↦ cc (rw e at h)
    | inr (c, e) ↦
        let k : ℕ = i.prevout.hash in
        let rest : all_have (after s k) r ≡ true = rw (fetch_same v l s k) (rw e at h) in
        let ih : Answers s (all (can_spend (look v l s)) r) (available_all v r (after s k)) =
          rw (fetch_same v l s k) at (available_all_lem r (after s k) rest) in
        rw (fetch_pair v l s k, e)
          (elim (Bool-cases (is_available c i.prevout.n)) [
            | inl y ↦ rw y ih
            | inr n ↦ rw n (after s k, refl, fetch_same v l s k)
          ])
  ]

  have_all_lem :
      (vin : List TxIn) (s : ViewCache S)
      → ((have_all v vin s).0 ≡ all_have s vin) × (look v l (have_all v vin s).1 ≡ look v l s)
  unfolding have_all all_have
  have_all_lem [] s = (refl, refl)
  have_all_lem (i ∷ r) s =
      let k : ℕ = i.prevout.hash in
      let ih : ((have_all v r (after s k)).0 ≡ all_have s r)
          × (look v l (have_all v r (after s k)).1 ≡ look v l s) =
        rw (fetch_same v l s k) at (have_all_lem r (after s k)) in
      rw (have_pair v l s k) (elim (Bool-cases (is_some (look v l s k))) [
        | inl y ↦ rw y ih
        | inr n ↦ rw n (refl, fetch_same v l s k)
      ])

  have_of_spend :
      (vin : List TxIn) (s : ViewCache S)
      → all_have s vin ≡ false
      → all (can_spend (look v l s)) vin ≡ false
  unfolding all_have
  have_of_spend [] s h = cc
  have_of_spend (i ∷ r) s h = elim (Option-cases (look v l s i.prevout.hash)) [
    | inl e ↦ rw e
    | inr (c, e) ↦
        let rest : all_have s r ≡ false = rw e at h in
        rw (have_of_spend r s rest) (and_false (can_spend (look v l s) i))
  ]

  then_available_lem :
      (vin : List TxIn) (s s1 : ViewCache S) (b : Bool)
      → b ≡ all_have s vin
      → look v l s1 ≡ look v l s
      → Answers s (all (can_spend (look v l s)) vin) (then_available v vin (b, s1))
  unfolding all_have
  then_available_lem vin s s1 true h e = rw e at (available_all_lem vin s1 (rw e (sym h)))
  then_available_lem vin s s1 false h e = rw (have_of_spend vin s (sym h)) (s1, refl, e)

  -- HaveInputs finds out whether the cache shows every output that the transaction spends. Its
  -- assertions hold, and it changes nothing of what the cache shows.
  pub have_inputs-available :
      (s : ViewCache S) (tx : Transaction)
      → Answers s (inputs_available (look v l s) tx) (have_inputs v s tx)
  unfolding have_inputs
  have_inputs-available s tx = elim (Bool-cases (is_coin_base tx)) [
    | inl y ↦ rw y (s, refl, refl)
    | inr n ↦
        let h : ((have_all v tx.vin s).0 ≡ all_have s tx.vin)
            × (look v l (have_all v tx.vin s).1 ≡ look v l s) =
          have_all_lem tx.vin s in
        rw n (then_available_lem tx.vin s (have_all v tx.vin s).1 (have_all v tx.vin s).0 h.0 h.1)
  ]
