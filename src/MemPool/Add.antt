-- ===== src/MemPool/Add.antt =====
-- addUnchecked of CTxMemPool (txmempool.cpp).
use mathlib.Core.Option.{some-injective}
use darcoin.Common.{
  ℕ, zero, suc, ◌+◌, ◌<◌, ◌≡◌, ◌≢◌, ◌⊎◌, inl, inr, refl, sym, ap, ◌∙◌, subst, true, false,
  Bool-cases, none, some, List, [], ◌∷◌, if◌then◌else◌, ◌==◌, ==_self, lookup, insert,
  lookup-insert, get_elem?, arith,
}
use darcoin.Tx.{Transaction}
use darcoin.Tx.Prevout
use darcoin.Tx.Prevout.{OutPoint}
use darcoin.Tx.Input.{TxIn}
use darcoin.MemPool.Next
use darcoin.MemPool.Next.{InPoint, find-put}
use darcoin.MemPool.{Entry, MemPool, mark_inputs, add_unchecked}
use darcoin.MemPool.Consistent.{HasInput, IsConsistent, Provides, spends, spends-find}
use darcoin.MemPool.Remove.{IsRanked}

-- No two inputs have the same prevout.
abbrev pub IsDistinct : List TxIn → Type 0
IsDistinct inputs =
    (i j : ℕ) (x y : TxIn)
    → get_elem? inputs i ≡ some x
    → get_elem? inputs j ≡ some y
    → x.prevout ≡ y.prevout
    → i ≡ j

find-mark_other :
    (h i : ℕ) (inputs : List TxIn) (m : List (OutPoint × InPoint)) (o : OutPoint)
    → spends inputs o ≡ false
    → Next.find o (mark_inputs h i inputs m) ≡ Next.find o m
unfolding spends mark_inputs
find-mark_other h i [] m o n = refl
find-mark_other h i (x ∷ r) m o n =
    let head : Prevout.eq x.prevout o ≡ false = ground (arith, n) in
    let tail : spends r o ≡ false = ground (arith, n) in
    find-mark_other h (i + 1) r (Next.put x.prevout (record { ptx = h; n = i }) m) o tail
    ∙ find-put x.prevout o (record { ptx = h; n = i }) m
    ∙ rw head refl

find-mark_inputs :
    (h i : ℕ) (inputs : List TxIn) (m : List (OutPoint × InPoint)) (j : ℕ) (x : TxIn)
    → IsDistinct inputs
    → get_elem? inputs j ≡ some x
    → Next.find x.prevout (mark_inputs h i inputs m) ≡ some (record { ptx = h; n = i + j })
unfolding mark_inputs
find-mark_inputs h i [] m j x d e = cc
find-mark_inputs h i (y ∷ r) m zero x d e =
    let same : y ≡ x = some-injective _ _ e in
    let self : Prevout.eq y.prevout x.prevout ≡ true =
      (Prevout.eq_iff y.prevout x.prevout).1 (ap (λ (u : TxIn). u.prevout) same) in
    elim (Bool-cases (spends r x.prevout)) [
      | inl again ↦
          let f = spends-find r x.prevout again in
          absurd (omega (arith, d 0 (suc f.0) x f.1 e f.2 (sym f.3)))
      | inr once ↦
          find-mark_other h (i + 1) r (Next.put y.prevout (record { ptx = h; n = i }) m) x.prevout
            once
          ∙ find-put y.prevout x.prevout (record { ptx = h; n = i }) m
          ∙ rw self (ap (λ k. some (record { ptx = h; n = k })) (omega arith))
    ]
find-mark_inputs h i (y ∷ r) m (suc j) x d e =
    find-mark_inputs h (i + 1) r (Next.put y.prevout (record { ptx = h; n = i }) m) j x
      (λ a b u v p q s. omega (arith, d (suc a) (suc b) u v p q s)) e
    ∙ ap (λ k. some (record { ptx = h; n = k })) (omega arith)

module _ (txid : Transaction → ℕ) where
  -- What AcceptToMemoryPool sees to before it adds an entry, as far as the pool goes.
  pub record IsAddable (p : MemPool) (h : ℕ) (e : Entry) : Type 0 where
    pub id : txid e.tx ≡ h
    pub new : lookup h p.map_tx ≡ none
    pub distinct : IsDistinct e.tx.vin
    pub unspent :
        (i : ℕ) (x : TxIn) → get_elem? e.tx.vin i ≡ some x → Next.find x.prevout p.map_next ≡ none
    pub funded :
        (i : ℕ) (x : TxIn) (g : Entry)
        → get_elem? e.tx.vin i ≡ some x
        → lookup x.prevout.hash p.map_tx ≡ some g
        → Provides g.tx x.prevout.n
    pub not_own : (i : ℕ) (x : TxIn) → get_elem? e.tx.vin i ≡ some x → x.prevout.hash ≢ h
    pub spent_by :
        (k i : ℕ) (x : TxIn) → HasInput p k i x → x.prevout.hash ≡ h → Provides e.tx x.prevout.n

  module _ (p : MemPool) (h : ℕ) (e : Entry) (c : IsConsistent txid p) (a : IsAddable p h e) where
    entries :
        (k : ℕ) (g : Entry)
        → lookup k (insert h e p.map_tx) ≡ some g
        → ((k ≡ h) × (g ≡ e)) ⊎ (lookup k p.map_tx ≡ some g)
    entries k g l =
        let cut : (if h == k then some e else lookup k p.map_tx) ≡ some g =
          sym (lookup-insert h k e p.map_tx) ∙ l in
        elim (Bool-cases (h == k)) [
          | inl same ↦
              let both : some e ≡ some g = rw same at cut in
              inl (ground (arith, same), some-injective _ _ (sym both))
          | inr other ↦ inr (rw other at cut)
        ]

    still :
        (k : ℕ) (g : Entry) → lookup k p.map_tx ≡ some g → lookup k (insert h e p.map_tx) ≡ some g
    still k g l = elim (Bool-cases (h == k)) [
      | inl same ↦
          let at : h ≡ k = ground (arith, same) in
          absurd (cc (sym l ∙ ap (λ j. lookup j p.map_tx) (sym at) ∙ a.new))
      | inr other ↦ lookup-insert h k e p.map_tx ∙ rw other l
    ]

    -- An input of the new entry or of an old one.
    inputs :
        (k i : ℕ) (x : TxIn)
        → HasInput (add_unchecked p h e) k i x
        → ((k ≡ h) × (get_elem? e.tx.vin i ≡ some x)) ⊎ HasInput p k i x
    unfolding add_unchecked
    inputs k i x has = elim (entries k has.0 has.1) [
      | inl (at, same) ↦ inl (at, subst (λ (g : Entry). get_elem? g.tx.vin i ≡ some x) same has.2)
      | inr old ↦ inr (has.0, old, has.2)
    ]

    -- The old entries do not spend what the new one does.
    not_spent : (k i : ℕ) (x : TxIn) → HasInput p k i x → spends e.tx.vin x.prevout ≡ false
    not_spent k i x has = elim (Bool-cases (spends e.tx.vin x.prevout)) [
      | inr n ↦ n
      | inl s ↦
          let f = spends-find e.tx.vin x.prevout s in
          absurd (
            cc (
              sym (a.unspent f.0 f.1 f.2)
              ∙ ap (λ o. Next.find o p.map_next) f.3
              ∙ c.marked k i x has))
    ]

    -- addUnchecked keeps a pool consistent, with its inputs and mapNextTx matching each other,
    -- where the hash is that of the transaction and new, its inputs are distinct, spent by no entry
    -- and not outputs of itself, and inputs that spend transactions of the pool, the new one
    -- included, name outputs that these have and that are not null.
    pub add_unchecked-IsConsistent : IsConsistent txid (add_unchecked p h e)
    unfolding add_unchecked
    add_unchecked-IsConsistent = record {
      own = λ k g l. elim (entries k g l) [
        | inl (at, same) ↦ ap (λ (u : Entry). txid u.tx) same ∙ a.id ∙ sym at
        | inr old ↦ c.own k g old
      ];
      marked = λ k i x has. elim (inputs k i x has) [
        | inl (at, e') ↦
            find-mark_inputs h 0 e.tx.vin p.map_next i x a.distinct e'
            ∙ ap (λ j. some (record { ptx = j; n = 0 + i })) (sym at)
            ∙ ap (λ j. some (record { ptx = k; n = j })) (omega arith)
        | inr old ↦
            find-mark_other h 0 e.tx.vin p.map_next x.prevout (not_spent k i x old)
            ∙ c.marked k i x old
      ];
      points = λ o v f. elim (Bool-cases (spends e.tx.vin o)) [
        | inl s ↦
            let (j, x, at, same) = spends-find e.tx.vin o s in
            let mine : some v ≡ some (record { ptx = h; n = 0 + j }) =
              sym f
              ∙ ap (λ q. Next.find q (mark_inputs h 0 e.tx.vin p.map_next)) (sym same)
              ∙ find-mark_inputs h 0 e.tx.vin p.map_next j x a.distinct at in
            let plain : v ≡ record { ptx = h; n = j } =
              some-injective _ _ mine ∙ ap (λ k. record { ptx = h; n = k }) (omega arith) in
            subst
              (λ (u : InPoint).
                (y : TxIn) × HasInput (add_unchecked p h e) u.ptx u.n y × (y.prevout ≡ o))
              (sym plain) (x, (e, lookup-insert h h e p.map_tx ∙ rw (==_self h) refl, at), same)
        | inr n ↦
            let q = c.points o v (sym (find-mark_other h 0 e.tx.vin p.map_next o n) ∙ f) in
            (q.0, (q.1.0, still v.ptx q.1.0 q.1.1, q.1.2), q.2)
      ];
      funded = λ k i x g has l. elim (inputs k i x has) [
        | inl (at, e') ↦ elim (entries x.prevout.hash g l) [
          | inl (self, same) ↦ absurd (a.not_own i x e' self)
          | inr old ↦ a.funded i x g e' old
        ]
        | inr older ↦ elim (entries x.prevout.hash g l) [
          | inl (self, same) ↦
              subst (λ (u : Entry). Provides u.tx x.prevout.n) (sym same)
                (a.spent_by k i x older self)
          | inr old ↦ c.funded k i x g older old
        ]
      ];
    }

    pub add_unchecked-IsRanked :
        (rank : ℕ → ℕ) (bound : ℕ)
        → IsRanked txid rank bound p
        → ((i : ℕ) (x : TxIn) → get_elem? e.tx.vin i ≡ some x → rank x.prevout.hash < rank h)
        → rank h < bound
        → IsRanked txid rank bound (add_unchecked p h e)
    unfolding add_unchecked
    add_unchecked-IsRanked rank bound old above below = (
      (λ k i x has. elim (inputs k i x has) [
        | inl (at, e') ↦ subst (λ j. rank x.prevout.hash < rank j) (sym at) (above i x e')
        | inr older ↦ old.0 k i x older
      ]),
      (λ k g l. elim (entries k g l) [
        | inl (at, same) ↦ subst (λ j. rank j < bound) (sym at) below
        | inr older ↦ old.1 k g older
      ]),
    )

module _ (txid : Transaction → ℕ) where
  -- An empty pool is consistent.
  pub empty-IsConsistent :
      (n : ℕ) → IsConsistent txid (record { map_tx = []; map_next = []; updated = n })
  unfolding lookup Next.find
  empty-IsConsistent n = record {
    own = λ k e l. absurd (cc l);
    marked = λ k i x has. absurd (cc has.1);
    points = λ o v f. absurd (cc f);
    funded = λ k i x e has l. absurd (cc l);
  }

  pub empty-IsRanked :
      (rank : ℕ → ℕ) (bound n : ℕ)
      → IsRanked txid rank bound (record { map_tx = []; map_next = []; updated = n })
  unfolding lookup
  empty-IsRanked rank bound n = ((λ k i x has. absurd (cc has.1)), (λ k e l. absurd (cc l)))
