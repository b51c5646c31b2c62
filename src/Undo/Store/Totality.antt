-- ===== src/Undo/Store/Totality.antt =====
-- The inputs of a checked transaction can all be taken, one after the other.
use darcoin.Common.{
  ◌≡◌, refl, ap, sym, ◌∙◌, ◌≢◌, inl, inr, Bool-cases, true, Option-cases, some, List, [], ◌∷◌, map,
  ◌==◌, ==_iff, all, All, arith,
}
use darcoin.Tx.Input.{TxIn}
use darcoin.Tx.Check.Laws.{Distinct}
use darcoin.Coins.{Coins, TxInUndo}
use darcoin.Coins.Spend.{Spent, spend-Spent}
use darcoin.View.Inputs.Laws.{Store, can_spend}
use darcoin.Undo.Store.{write, spend_from}

-- Another output stays where it is.
can_spend-write :
    (f : Store) (i j : TxIn) (c c' : Coins) (u : TxInUndo)
    → f i.prevout.hash ≡ some c
    → Spent c i.prevout.n u c'
    → i.prevout ≢ j.prevout
    → can_spend (write f i.prevout.hash c') j ≡ can_spend f j
can_spend-write f i j c c' u e s d = elim (Bool-cases (i.prevout.hash == j.prevout.hash)) [
  | inl y ↦
      let h : i.prevout.hash ≡ j.prevout.hash = (==_iff _ _).0 y in
      let fj : f j.prevout.hash ≡ some c = sym (ap f h) ∙ e in
      rw (y, fj) (s.taken j.prevout.n ∙ ground (arith, d))
  | inr n ↦ rw n refl
]

all-can_spend-write :
    (f : Store) (i : TxIn) (r : List TxIn) (c c' : Coins) (u : TxInUndo)
    → f i.prevout.hash ≡ some c
    → Spent c i.prevout.n u c'
    → All (λ q. i.prevout ≢ q) (map (λ j. j.prevout) r)
    → all (can_spend (write f i.prevout.hash c')) r ≡ all (can_spend f) r
all-can_spend-write f i [] c c' u e s d = refl
all-can_spend-write f i (j ∷ r) c c' u e s d =
    rw (can_spend-write f i j c c' u e s d.0, all-can_spend-write f i r c c' u e s d.1)

-- Distinct outputs that the map shows can be spent one after the other.
pub spend_from-total :
    (vin : List TxIn) (f : Store)
    → all (can_spend f) vin ≡ true
    → Distinct (map (λ i. i.prevout) vin)
    → (r : List TxInUndo × Store) × (spend_from vin f ≡ some r)
unfolding spend_from
spend_from-total [] f a d = (([], f), refl)
spend_from-total (i ∷ r) f a d = elim (Option-cases (f i.prevout.hash)) [
  | inl n ↦ cc (rw n at a)
  | inr (c, y) ↦ elim (spend-Spent c i.prevout.n) [
    | inl (_, n) ↦ cc (rw (y, n) at a)
    | inr ((u, c'), z, s) ↦
        let rest : all (can_spend f) r ≡ true = ground (arith, a) in
        let ih : (q : List TxInUndo × Store) × (spend_from r (write f i.prevout.hash c') ≡ some q) =
          spend_from-total r (write f i.prevout.hash c')
            (all-can_spend-write f i r c c' u y s d.0 ∙ rest) d.1 in
        ((u ∷ ih.0.0, ih.0.1), rw (y, z, ih.1))
  ]
]
