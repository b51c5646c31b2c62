-- ===== src/Undo/Store/RoundTrip.antt =====
-- Disconnecting a transaction takes back what connecting it did, on a map of coins.
use mathlib.Core.Option.{some-injective}
use mathlib.Core.Path.{fun_ext}
use darcoin.Common.{
  ℕ, ◌≡◌, refl, ap, sym, subst, ◌∙◌, ◌≢◌, ◌⊎◌, inl, inr, Bool, Bool-cases, true, false, ◌&&◌,
  Option, Option-cases, none, some, List, [], ◌∷◌, ◌==◌, ==_iff, ==_self, all, All, get_elem?,
  arith,
}
use darcoin.Tx.Input.{TxIn}
use darcoin.Tx.Output
use darcoin.Tx.Output.{TxOut}
use darcoin.Coins.{Coins, TxInUndo, spend, is_unspent, is_pruned, restore_output}
use darcoin.Coins.Spend.{Spent}
use darcoin.Coins.Restore.{IsClean, restore-spend}
use darcoin.Coins.Clean.{spend-inv, spend-IsClean}
use darcoin.View.Inputs.Laws.{Store}
use darcoin.Undo.{coins_or_new}
use darcoin.Undo.Store.{write, spend_from, add_undo, put_back, restore_to}

-- The coins in which something is unspent are clean and have a height.
abbrev pub IsGoodCoins : Coins → Type 0
IsGoodCoins c = (is_pruned c ≡ true) ⊎ (IsClean c × (c.height ≢ 0))

abbrev pub IsGoodEntry : Option Coins → Type 0
IsGoodEntry none = Unit {0}
IsGoodEntry (some c) = IsGoodCoins c

abbrev pub IsGood : Store → Type 0
IsGood f = (k : ℕ) → IsGoodEntry (f k)

available_unpruned :
    (vout : List TxOut) (n : ℕ)
    → is_unspent (get_elem? vout n) ≡ true
    → all Output.is_null vout ≡ false
available_unpruned [] n h = cc
available_unpruned (o ∷ r) ℕ.zero h = ground arith
available_unpruned (o ∷ r) (ℕ.suc n) h = ground (arith, available_unpruned r n h)

-- What a spend from good coins gives.
record GoodSpend (c : Coins) (n : ℕ) (u : TxInUndo) (c' : Coins) : Type 0 where
  back : restore_output c' n u ≡ (c, true)
  good : IsGoodCoins c'

spend-GoodSpend :
    (c c' : Coins) (n : ℕ) (u : TxInUndo)
    → IsGoodCoins c
    → spend c n ≡ some (u, c')
    → GoodSpend c n u c'
spend-GoodSpend c c' n u (inl p) e =
    let s : Spent c n u c' = spend-inv c c' n u e in
    absurd (cc (available_unpruned c.vout n s.was_available, p))
spend-GoodSpend c c' n u (inr (w, h)) e =
    let s : Spent c n u c' = spend-inv c c' n u e in
    record {
      back = restore-spend c c' c' n u w h e (inl refl);
      good = inr (spend-IsClean c c' n u w e, λ z. h (sym s.same_height ∙ z));
    }

IsGood-write : (f : Store) (k : ℕ) (c : Coins) → IsGood f → IsGoodCoins c → IsGood (write f k c)
IsGood-write f k c g w j = elim (Bool-cases (k == j)) [ inl y ↦ rw y w | inr n ↦ rw n (g j) ]

write_back : (f : Store) (k : ℕ) (c c' : Coins) → f k ≡ some c → write (write f k c') k c ≡ f
write_back f k c c' e = fun_ext (λ j. elim (Bool-cases (k == j)) [
  | inl y ↦ rw y (sym e ∙ ap f ((==_iff k j).0 y))
  | inr n ↦ rw n refl
])

-- The parts of a successful run over the inputs.
record Taken (i : TxIn) (r : List TxIn) (f : Store) (us : List TxInUndo) (f' : Store) : Type 0 where
  c : Coins
  c' : Coins
  u : TxInUndo
  rest : List TxInUndo
  found : f i.prevout.hash ≡ some c
  taken : spend c i.prevout.n ≡ some (u, c')
  run : spend_from r (write f i.prevout.hash c') ≡ some (rest, f')
  undos : us ≡ u ∷ rest

add_undo-Taken :
    (i : TxIn) (r : List TxIn) (f : Store) (us : List TxInUndo) (f' : Store) (c c' : Coins)
    (u : TxInUndo) (q : Option (List TxInUndo × Store))
    → f i.prevout.hash ≡ some c
    → spend c i.prevout.n ≡ some (u, c')
    → spend_from r (write f i.prevout.hash c') ≡ q
    → add_undo u q ≡ some (us, f')
    → Taken i r f us f'
add_undo-Taken i r f us f' c c' u none a b d e = absurd (cc e)
add_undo-Taken i r f us f' c c' u (some (rest, f1)) a b d e =
    let p : (u ∷ rest, f1) ≡ (us, f') = some-injective (u ∷ rest, f1) (us, f') e in
    record {
      c = c;
      c' = c';
      u = u;
      rest = rest;
      found = a;
      taken = b;
      run = d ∙ ap (λ g. some (rest, g)) (λ j. (p j).1);
      undos = ap (λ (q : List TxInUndo × Store). q.0) (sym p);
    }

spend_from-Taken :
    (i : TxIn) (r : List TxIn) (f f' : Store) (us : List TxInUndo)
    → spend_from (i ∷ r) f ≡ some (us, f')
    → Taken i r f us f'
unfolding spend_from
spend_from-Taken i r f f' us e = elim (Option-cases (f i.prevout.hash)) [
  | inl n ↦ absurd (cc (rw n at e))
  | inr (c, y) ↦ elim (Option-cases (spend c i.prevout.n)) [
    | inl n ↦ absurd (cc (rw (y, n) at e))
    | inr ((u, c'), z) ↦ add_undo-Taken i r f us f' c c' u _ y z refl (rw (y, z) at e)
  ]
]

put_back_lem :
    (i : TxIn) (u : TxInUndo) (f : Store) (c c' : Coins)
    → f i.prevout.hash ≡ some c
    → restore_output c' i.prevout.n u ≡ (c, true)
    → put_back i u (some (true, write f i.prevout.hash c')) ≡ some (true, f)
put_back_lem i u f c c' e b =
    rw (==_self i.prevout.hash, b) (ap (λ g. some (true, g)) (write_back f i.prevout.hash c c' e))

-- The undo records put back exactly the map from which the inputs were taken.
pub restore-spend_from :
    (vin : List TxIn) (f f' : Store) (us : List TxInUndo)
    → IsGood f
    → spend_from vin f ≡ some (us, f')
    → restore_to vin us f' true ≡ some (true, f)
unfolding spend_from restore_to
restore-spend_from [] f f' us g e =
    ap (λ (q : List TxInUndo × Store). some (true, q.1)) (sym (some-injective ([], f) (us, f') e))
restore-spend_from (i ∷ r) f f' us g e =
    let t : Taken i r f us f' = spend_from-Taken i r f f' us e in
    let s : GoodSpend t.c i.prevout.n t.u t.c' =
      spend-GoodSpend t.c t.c' i.prevout.n t.u (subst IsGoodEntry t.found (g i.prevout.hash))
        t.taken in
    let ih : restore_to r t.rest f' true ≡ some (true, write f i.prevout.hash t.c') =
      restore-spend_from r (write f i.prevout.hash t.c') f' t.rest
        (IsGood-write f i.prevout.hash t.c' g s.good) t.run in
    rw (t.undos, ih) (put_back_lem i t.u f t.c t.c' t.found s.back)

-- A write elsewhere can be made before or after.
write_comm :
    (f : Store) (k t : ℕ) (c d : Coins) → k ≢ t → write (write f t d) k c ≡ write (write f k c) t d
write_comm f k t c d h = fun_ext (λ j. ground arith)

abbrev pub with_write : ℕ → Coins → Option (Bool × Store) → Option (Bool × Store)
with_write t d none = none
with_write t d (some (b, f)) = some (b, write f t d)

put_back-write :
    (i : TxIn) (u : TxInUndo) (t : ℕ) (d : Coins) (q : Option (Bool × Store))
    → i.prevout.hash ≢ t
    → put_back i u (with_write t d q) ≡ with_write t d (put_back i u q)
put_back-write i u t d none h = refl
put_back-write i u t d (some (b, f)) h =
    let k : ℕ = i.prevout.hash in
    let away : (t == k) ≡ false = ground (arith, h) in
    rw away (
      ap (λ g. some (b && (restore_output (coins_or_new (f k)) i.prevout.n u).1, g))
        (write_comm f k t (restore_output (coins_or_new (f k)) i.prevout.n u).0 d h))

-- An entry that no input names takes no part in the restoring.
pub restore_to-write :
    (vin : List TxIn) (us : List TxInUndo) (f : Store) (t : ℕ) (d : Coins) (clean : Bool)
    → All (λ i. i.prevout.hash ≢ t) vin
    → restore_to vin us (write f t d) clean ≡ with_write t d (restore_to vin us f clean)
unfolding restore_to
restore_to-write [] us f t d clean h = refl
restore_to-write (i ∷ r) [] f t d clean h = refl
restore_to-write (i ∷ r) (u ∷ us) f t d clean h =
    ap (put_back i u) (restore_to-write r us f t d clean h.1)
    ∙ put_back-write i u t d (restore_to r us f clean) h.0
