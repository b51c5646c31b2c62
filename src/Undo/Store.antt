-- ===== src/Undo/Store.antt =====
-- The same steps on a map of coins, and the theorem that the steps on a cache follow them.
pub mod RoundTrip
pub mod Totality
use mathlib.Core.List.{append_assoc, append-nil}
use darcoin.Common.{
  ℕ, ◌≡◌, refl, ap, sym, subst, ◌∙◌, ◌⊎◌, inl, inr, Bool, Bool-cases, true, false, not, ◌&&◌,
  Option, Option-cases, none, some, List, [], ◌∷◌, ◌++◌, ◌==◌, if◌then◌else◌, arith,
}
use darcoin.Tx.Input.{TxIn}
use darcoin.Coins.{Coins, TxInUndo, no_coins, spend, restore_output}
use darcoin.View.{CoinsView, IsCoinsView}
use darcoin.View.Cache.{ViewCache, fetch_coins, set_coins}
use darcoin.View.Cache.Contract.{look, fetch_pair, fetch_same, set_same}
use darcoin.View.Inputs.Laws.{Store}
use darcoin.Undo.{
  spent_then, spend_inputs, coins_or_new, restore_input, restore_after, restore_inputs,
}

abbrev pub write : Store → ℕ → Coins → Store
write f k c = λ j. if k == j then some c else f j

abbrev pub spent_on {ℓ} : {A : Type ℓ} → Option Coins → ℕ → (TxInUndo → Coins → Option A) → Option A
spent_on none n g = none
spent_on (some c) n g = spent_then (spend c n) g

abbrev pub add_undo : TxInUndo → Option (List TxInUndo × Store) → Option (List TxInUndo × Store)
add_undo u none = none
add_undo u (some (us, f)) = some (u ∷ us, f)

-- The inputs taken from the map, first to last.
pub spend_from : List TxIn → Store → Option (List TxInUndo × Store)
spend_from [] f = some ([], f)
spend_from (i ∷ r) f =
    spent_on (f i.prevout.hash) i.prevout.n
      (λ u c'. add_undo u (spend_from r (write f i.prevout.hash c')))

abbrev pub put_back : TxIn → TxInUndo → Option (Bool × Store) → Option (Bool × Store)
put_back i u none = none
put_back i u (some (clean, f)) =
    let r = restore_output (coins_or_new (f i.prevout.hash)) i.prevout.n u in
    some (clean && r.1, write f i.prevout.hash r.0)

-- The inputs put back into the map, last to first.
pub restore_to : List TxIn → List TxInUndo → Store → Bool → Option (Bool × Store)
restore_to [] us f clean = some (clean, f)
restore_to (i ∷ r) [] f clean = none
restore_to (i ∷ r) (u ∷ us) f clean = put_back i u (restore_to r us f clean)

abbrev pub prepend : List TxInUndo → Option (List TxInUndo × Store) → Option (List TxInUndo × Store)
prepend acc none = none
prepend acc (some (us, f)) = some (acc ++ us, f)

prepend-add_undo :
    (acc : List TxInUndo) (u : TxInUndo) (r : Option (List TxInUndo × Store))
    → prepend (acc ++ u ∷ []) r ≡ prepend acc (add_undo u r)
prepend-add_undo acc u none = refl
prepend-add_undo acc u (some (us, f)) = rw append_assoc

pub prepend-nil : (r : Option (List TxInUndo × Store)) → prepend [] r ≡ r
prepend-nil none = refl
prepend-nil (some (us, f)) = refl

module _ {S : Type 0} (v : CoinsView S) (l : IsCoinsView v) where
  -- The same answer, and the cache shows the map.
  abbrev pub Follows : {A : Type 0} → Option (A × ViewCache S) → Option (A × Store) → Type 0
  Follows none none = Unit {0}
  Follows none (some q) = ⊥
  Follows (some (a, s)) none = ⊥
  Follows (some (a, s)) (some (b, f)) = (a ≡ b) × (look v l s ≡ f)

  pub set_after :
      (s : ViewCache S) (f : Store) (k : ℕ) (c : Coins)
      → look v l s ≡ f
      → look v l (set_coins v (fetch_coins v s k).1 k c).1 ≡ write f k c
  set_after s f k c e = rw (set_same v l (fetch_coins v s k).1 k c, fetch_same v l s k, e)

  pub fetch_as :
      (s : ViewCache S) (f : Store) (k : ℕ)
      → look v l s ≡ f
      → fetch_coins v s k ≡ (f k, (fetch_coins v s k).1)
  fetch_as s f k e = fetch_pair v l s k ∙ (λ i. (e i k, (fetch_coins v s k).1))

  pub spend_inputs-Follows :
      (vin : List TxIn) (s : ViewCache S) (f : Store) (acc : List TxInUndo)
      → look v l s ≡ f
      → Follows (spend_inputs v vin s acc) (prepend acc (spend_from vin f))
  unfolding spend_inputs spend_from
  spend_inputs-Follows [] s f acc e = (sym (append-nil acc), e)
  spend_inputs-Follows (i ∷ r) s f acc e =
      rw (fetch_as s f i.prevout.hash e) (elim (Option-cases (f i.prevout.hash)) [
        | inl n ↦ rw n tt
        | inr (c, y) ↦ rw y (elim (Option-cases (spend c i.prevout.n)) [
          | inl n ↦ rw n tt
          | inr ((u, c'), z) ↦ rw z (
              rw (← prepend-add_undo) (
                spend_inputs-Follows r _ (write f i.prevout.hash c') (acc ++ u ∷ [])
                  (set_after s f i.prevout.hash c' e)))
        ])
      ])

  put_back-Follows :
      (i : TxIn) (u : TxInUndo) (r : Option (Bool × ViewCache S)) (q : Option (Bool × Store))
      → Follows r q
      → Follows (restore_after v i u r) (put_back i u q)
  put_back-Follows i u none none h = tt
  put_back-Follows i u none (some q) h = absurd h
  put_back-Follows i u (some r) none h = absurd h
  put_back-Follows i u (some (b, s)) (some (c, f)) h =
      let k : ℕ = i.prevout.hash in
      let x : Bool = (restore_output (coins_or_new (f k)) i.prevout.n u).1 in
      rw (fetch_as s f k h.1) (ap (λ b. b && x) h.0, set_after s f k _ h.1)

  pub restore_inputs-Follows :
      (vin : List TxIn) (us : List TxInUndo) (s : ViewCache S) (f : Store) (clean : Bool)
      → look v l s ≡ f
      → Follows (restore_inputs v vin us s clean) (restore_to vin us f clean)
  unfolding restore_inputs restore_to
  restore_inputs-Follows [] us s f clean e = (refl, e)
  restore_inputs-Follows (i ∷ r) [] s f clean e = tt
  restore_inputs-Follows (i ∷ r) (u ∷ us) s f clean e =
      put_back-Follows i u (restore_inputs v r us s clean) (restore_to r us f clean)
        (restore_inputs-Follows r us s f clean e)

  pub Follows-some :
      {A : Type 0} (r : Option (A × ViewCache S)) (a : A) (f : Store)
      → Follows r (some (a, f))
      → (s' : ViewCache S) × (r ≡ some (a, s')) × (look v l s' ≡ f)
  Follows-some none a f h = absurd h
  Follows-some (some (b, s)) a f h = (s, ap (λ x. some (x, s)) h.0, h.1)
