-- ===== src/MemPool/Consistent.antt =====
-- What CTxMemPool::check asserts of mapTx and mapNextTx (txmempool.cpp), without the coins outside
-- of the pool.
use mathlib.Core.Option.{some-injective}
use darcoin.Common.{
  ℕ, zero, suc, ◌<◌, ◌≡◌, ◌≢◌, inl, inr, refl, sym, ap, ◌∙◌, subst, Bool, true, false, ◌||◌,
  Bool-cases, none, some, List, [], ◌∷◌, if◌then◌else◌, ◌==◌, lookup, erase, lookup-erase, length,
  get_elem?, arith,
}
use darcoin.Tx.{Transaction}
use darcoin.Tx.Prevout
use darcoin.Tx.Prevout.{OutPoint}
use darcoin.Tx.Input.{TxIn}
use darcoin.Tx.Output
use darcoin.Tx.Output.{TxOut}
use darcoin.MemPool.Next
use darcoin.MemPool.Next.{InPoint, find-erase}
use darcoin.MemPool.{Entry, MemPool, unmark_inputs}

-- An input of an entry.
abbrev pub HasInput : MemPool → ℕ → ℕ → TxIn → Type 0
HasInput p k i x = (e : Entry) × (lookup k p.map_tx ≡ some e) × (get_elem? e.tx.vin i ≡ some x)

-- The transaction has the output, and it is not null.
abbrev pub Provides : Transaction → ℕ → Type 0
Provides tx n =
    (n < length tx.vout) × ((o : TxOut) → get_elem? tx.vout n ≡ some o → Output.is_null o ≡ false)

-- An entry that a smaller pool still has.
abbrev pub IsSub : MemPool → MemPool → Type 0
IsSub p' p = (k : ℕ) (e : Entry) → lookup k p'.map_tx ≡ some e → lookup k p.map_tx ≡ some e

module _ (txid : Transaction → ℕ) where
  pub record IsConsistent (p : MemPool) : Type 0 where
    pub own : (k : ℕ) (e : Entry) → lookup k p.map_tx ≡ some e → txid e.tx ≡ k
    pub marked :
        (k i : ℕ) (x : TxIn)
        → HasInput p k i x
        → Next.find x.prevout p.map_next ≡ some (record { ptx = k; n = i })
    pub points :
        (o : OutPoint) (v : InPoint)
        → Next.find o p.map_next ≡ some v
        → (x : TxIn) × HasInput p v.ptx v.n x × (x.prevout ≡ o)
    pub funded :
        (k i : ℕ) (x : TxIn) (e : Entry)
        → HasInput p k i x
        → lookup x.prevout.hash p.map_tx ≡ some e
        → Provides e.tx x.prevout.n

  pub find-sub :
      (p' p : MemPool)
      → IsConsistent p'
      → IsConsistent p
      → IsSub p' p
      → (o : OutPoint) (v : InPoint) → Next.find o p'.map_next ≡ some v
      → Next.find o p.map_next ≡ some v
  find-sub p' p c' c s o v f =
      let q = c'.points o v f in
      subst (λ r. Next.find r p.map_next ≡ some v) q.2
        (c.marked v.ptx v.n q.0 (q.1.0, s v.ptx q.1.0 q.1.1, q.1.2))

-- Whether one of the inputs has the prevout.
unfoldable pub spends : List TxIn → OutPoint → Bool
spends [] o = false
spends (x ∷ r) o = Prevout.eq x.prevout o || spends r o

pub find-unmark_inputs :
    (inputs : List TxIn) (o : OutPoint) (m : List (OutPoint × InPoint))
    → Next.find o (unmark_inputs inputs m) ≡ (if spends inputs o then none else Next.find o m)
unfolding spends unmark_inputs
find-unmark_inputs [] o m = refl
find-unmark_inputs (x ∷ r) o m =
    rw (find-unmark_inputs r o (Next.erase x.prevout m), find-erase x.prevout o m) (ground arith)

pub spends-find :
    (inputs : List TxIn) (o : OutPoint)
    → spends inputs o ≡ true
    → (i : ℕ) × (x : TxIn) × (get_elem? inputs i ≡ some x) × (x.prevout ≡ o)
unfolding spends
spends-find [] o h = absurd (ground (arith, h))
spends-find (y ∷ r) o h = elim (Bool-cases (Prevout.eq y.prevout o)) [
  | inl same ↦ (0, y, refl, (Prevout.eq_iff y.prevout o).0 same)
  | inr other ↦
      let rest : spends r o ≡ true = rw other at h in
      let f = spends-find r o rest in (suc f.0, f.1, f.2, f.3)
]

pub spends-input :
    (inputs : List TxIn) (i : ℕ) (x : TxIn)
    → get_elem? inputs i ≡ some x
    → spends inputs x.prevout ≡ true
unfolding spends
spends-input [] i x h = cc
spends-input (y ∷ r) zero x h =
    let same : Prevout.eq y.prevout x.prevout ≡ true =
      (Prevout.eq_iff y.prevout x.prevout).1
        (ap (λ (q : TxIn). q.prevout) (some-injective _ _ h)) in
    rw same refl
spends-input (y ∷ r) (suc i) x h =
    let rest : spends r x.prevout ≡ true = spends-input r i x h in ground (arith, rest)

-- The pool without an entry whose outputs no other entry spends.
abbrev pub erase_entry : MemPool → ℕ → Entry → MemPool
erase_entry p h e = record {
  map_tx = erase h p.map_tx;
  map_next = unmark_inputs e.tx.vin p.map_next;
  updated = p.updated;
}

module _ (txid : Transaction → ℕ) where
  module _ (p : MemPool) (h : ℕ) (e : Entry) (c : IsConsistent txid p)
      (found : lookup h p.map_tx ≡ some e) where
    -- A prevout is one input's alone.
    alone : (k i : ℕ) (x : TxIn) → HasInput p k i x → spends e.tx.vin x.prevout ≡ true → k ≡ h
    alone k i x has s =
        let (j, y, at_j, same) = spends-find e.tx.vin x.prevout s in
        let mine : Next.find x.prevout p.map_next ≡ some (record { ptx = h; n = j }) =
          subst (λ o. Next.find o p.map_next ≡ some (record { ptx = h; n = j })) same
            (c.marked h j y (e, found, at_j)) in
        ap (λ (v : InPoint). v.ptx) (some-injective _ _ (sym (c.marked k i x has) ∙ mine))

    pub kept :
        (k : ℕ) (g : Entry)
        → lookup k (erase h p.map_tx) ≡ some g
        → (k ≢ h) × (lookup k p.map_tx ≡ some g)
    kept k g l =
        let cut : (if h == k then none else lookup k p.map_tx) ≡ some g =
          sym (lookup-erase h k p.map_tx) ∙ l in
        elim (Bool-cases (h == k)) [
          | inl same ↦ let gone : none ≡ some g = rw same at cut in absurd (cc gone)
          | inr other ↦ (λ q. absurd (ground (arith, q, other)), rw other at cut)
        ]

    pub stays :
        (k : ℕ) (g : Entry)
        → lookup k p.map_tx ≡ some g
        → k ≢ h
        → lookup k (erase h p.map_tx) ≡ some g
    stays k g l other = elim (Bool-cases (h == k)) [
      | inl same ↦ absurd (other (ground (arith, same)))
      | inr n ↦ lookup-erase h k p.map_tx ∙ rw n l
    ]

    pub erase_entry-IsConsistent : IsConsistent txid (erase_entry p h e)
    erase_entry-IsConsistent = record {
      own = λ k g l. c.own k g (kept k g l).1;
      marked = λ k i x has.
          let old = kept k has.0 has.1 in
          let mine : Next.find x.prevout p.map_next ≡ some (record { ptx = k; n = i }) =
            c.marked k i x (has.0, old.1, has.2) in
          find-unmark_inputs e.tx.vin x.prevout p.map_next
          ∙ elim (Bool-cases (spends e.tx.vin x.prevout)) [
            | inl s ↦ absurd (old.0 (alone k i x (has.0, old.1, has.2) s))
            | inr n ↦ rw n mine
          ];
      points = λ o v f.
          let cut : (if spends e.tx.vin o then none else Next.find o p.map_next) ≡ some v =
            sym (find-unmark_inputs e.tx.vin o p.map_next) ∙ f in
          elim (Bool-cases (spends e.tx.vin o)) [
            | inl s ↦ let gone : none ≡ some v = rw s at cut in absurd (cc gone)
            | inr n ↦
                let old : Next.find o p.map_next ≡ some v = rw n at cut in
                let q = c.points o v old in
                let at_key : (v.ptx ≡ h) → spends e.tx.vin o ≡ true = λ same.
                  let both : some q.1.0 ≡ some e =
                    sym q.1.1 ∙ (ap (λ k. lookup k p.map_tx) same ∙ found) in
                  subst (λ r. spends e.tx.vin r ≡ true) q.2
                    (spends-input e.tx.vin v.n q.0 (
                      subst (λ (r : Entry). get_elem? r.tx.vin v.n ≡ some q.0)
                        (some-injective _ _ both) q.1.2)) in
                (
                  q.0,
                  (
                    q.1.0,
                    stays v.ptx q.1.0 q.1.1 (λ same. absurd (ground (arith, at_key same, n))),
                    q.1.2,
                  ),
                  q.2,
                )
          ];
      funded = λ k i x g has l.
          c.funded k i x g (has.0, (kept k has.0 has.1).1, has.2) (kept x.prevout.hash g l).1;
    }

  pub updated-IsConsistent :
      (p : MemPool) (n : ℕ) → IsConsistent txid p → IsConsistent txid (record p { updated = n })
  updated-IsConsistent p n c = record {
    own = c.own;
    marked = c.marked;
    points = c.points;
    funded = c.funded;
  }
