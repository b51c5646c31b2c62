-- ===== src/MemPool/Remove.antt =====
-- The recursive remove of CTxMemPool (txmempool.cpp) takes an entry with everything that descends
-- from it.
use mathlib.Core.Option.{some-injective}
use darcoin.Common.{
  Option-cases, ℕ, zero, suc, ◌+◌, ◌≤◌, ◌<◌, ◌≡◌, ◌≢◌, ◌⊎◌, inl, inr, refl, sym, ap, ◌∙◌, subst,
  Bool-cases, Option, none, some, List, ◌==◌, lookup, lookup-erase, ==_self, length, get_elem?,
  arith,
}
use darcoin.Tx.{Transaction}
use darcoin.Tx.Prevout.{OutPoint}
use darcoin.Tx.Input.{TxIn}
use darcoin.MemPool.Next
use darcoin.MemPool.Next.{InPoint}
use darcoin.MemPool.{
  Entry, MemPool, Removal, take_out, with_removal, call_on, remove_spender, remove_spenders,
  remove_entry, remove_all,
}
use darcoin.MemPool.Consistent.{
  HasInput, IsConsistent, IsSub, find-sub, erase_entry, kept, stays, erase_entry-IsConsistent,
  updated-IsConsistent,
}

-- The transactions that spend an output of `h`, and on from them.
pub data Descends (p : MemPool) (h : ℕ) : ℕ → Type 0 where
  self : Descends p h h
  child :
      (j k i : ℕ) (x : TxIn)
      → HasInput p k i x
      → x.prevout.hash ≡ j
      → Descends p h j
      → Descends p h k

abbrev pub IsListed : Transaction → List Transaction → Type 0
IsListed t ts = (i : ℕ) × (get_elem? ts i ≡ some t)

abbrev pub input-sub :
    (p' p : MemPool) → IsSub p' p → (k i : ℕ) (x : TxIn) → HasInput p' k i x → HasInput p k i x
input-sub p' p s k i x has = (has.0, s k has.0 has.1, has.2)

pub Descends-sub : (p' p : MemPool) (h j : ℕ) → IsSub p' p → Descends p' h j → Descends p h j
Descends-sub p' p h j s self = self
Descends-sub p' p h j s (child m k i x has e d) =
    child m k i x (input-sub p' p s k i x has) e (Descends-sub p' p h m s d)

Descends-trans : (p : MemPool) (h k j : ℕ) → Descends p h k → Descends p k j → Descends p h j
Descends-trans p h k j d self = d
Descends-trans p h k j d (child m l i x has e r) = child m l i x has e (Descends-trans p h k m d r)

module _ (txid : Transaction → ℕ) where
  -- What the removal of `h` with its descendants makes of a pool and a list.
  pub record Removes (h : ℕ) (r r' : Removal) : Type 0 where
    pub consistent : IsConsistent txid r'.0
    pub sub : IsSub r'.0 r.0
    pub closed :
        (k i : ℕ) (x : TxIn) (e : Entry)
        → HasInput r'.0 k i x
        → lookup x.prevout.hash r.0.map_tx ≡ some e
        → lookup x.prevout.hash r'.0.map_tx ≡ some e
    pub only :
        (k : ℕ) (e : Entry)
        → lookup k r.0.map_tx ≡ some e
        → (lookup k r'.0.map_tx ≡ some e) ⊎ (Descends r.0 h k × IsListed e.tx r'.1)
    pub grows : (t : Transaction) → IsListed t r.1 → IsListed t r'.1

  Removes-self : (h : ℕ) (r : Removal) → IsConsistent txid r.0 → Removes h r r
  Removes-self h r c = record {
    consistent = c;
    sub = λ k e l. l;
    closed = λ k i x e has l. l;
    only = λ k e l. inl l;
    grows = λ t l. l;
  }

  Removes-trans : (h : ℕ) (r s t : Removal) → Removes h r s → Removes h s t → Removes h r t
  Removes-trans h r s t a b = record {
    consistent = b.consistent;
    sub = λ k e l. a.sub k e (b.sub k e l);
    closed = λ k i x e has l.
        b.closed k i x e has (a.closed k i x e (input-sub t.0 s.0 b.sub k i x has) l);
    only = λ k e l. elim (a.only k e l) [
      | inr gone ↦ inr (gone.0, b.grows e.tx gone.1)
      | inl there ↦ elim (b.only k e there) [
        | inl still ↦ inl still
        | inr gone ↦ inr (Descends-sub s.0 r.0 h k a.sub gone.0, gone.1)
      ]
    ];
    grows = λ u l. b.grows u (a.grows u l);
  }

  Removes-child : (h k : ℕ) (r s : Removal) → Descends r.0 h k → Removes k r s → Removes h r s
  Removes-child h k r s d a = record {
    consistent = a.consistent;
    sub = a.sub;
    closed = a.closed;
    only = λ j e l. elim (a.only j e l) [
      | inl still ↦ inl still
      | inr gone ↦ inr (Descends-trans r.0 h k j d gone.0, gone.1)
    ];
    grows = a.grows;
  }

  -- No entry spends an output of the transaction.
  abbrev pub Unspent : ℕ → MemPool → Type 0
  Unspent h p = (k i : ℕ) (x : TxIn) → HasInput p k i x → x.prevout.hash ≢ h

  -- The entry itself goes, behind the entries that spend it.
  take_out-Removes :
      (h : ℕ) (e : Entry) (r : Removal)
      → IsConsistent txid r.0
      → lookup h r.0.map_tx ≡ some e
      → Unspent h r.0
      → Removes h r (take_out (some e) h e.tx r)
  take_out-Removes h e r c found free = record {
    consistent =
        updated-IsConsistent txid (erase_entry r.0 h e) _
          (erase_entry-IsConsistent txid r.0 h e c found);
    sub = λ k g l. (kept txid r.0 h e c found k g l).1;
    closed = λ k i x g has l.
        stays txid r.0 h e c found x.prevout.hash g l
          (free k i x (has.0, (kept txid r.0 h e c found k has.0 has.1).1, has.2));
    only = λ k g l. elim (Bool-cases (h == k)) [
      | inr other ↦ inl (stays txid r.0 h e c found k g l (λ q. absurd (ground (arith, q, other))))
      | inl same ↦
          let at_h : h ≡ k = ground (arith, same) in
          let both : some g ≡ some e = sym l ∙ (ap (λ j. lookup j r.0.map_tx) (sym at_h) ∙ found) in
          inr (
            subst (Descends r.0 h) at_h self,
            (0, ap (λ (u : Entry). some u.tx) (some-injective _ _ (sym both))),
          )
    ];
    grows = λ t l. (suc l.0, l.1);
  }

  module _ (rank : ℕ → ℕ) (bound : ℕ) where
    -- What an entry spends has a lower rank, and the ranks of the entries are below the bound.
    abbrev pub IsRanked : MemPool → Type 0
    IsRanked p =
        ((k i : ℕ) (x : TxIn) → HasInput p k i x → rank x.prevout.hash < rank k)
        × ((k : ℕ) (e : Entry) → lookup k p.map_tx ≡ some e → rank k < bound)

    pub IsRanked-sub : (p' p : MemPool) → IsSub p' p → IsRanked p → IsRanked p'
    IsRanked-sub p' p s a =
        ((λ k i x has. a.0 k i x (input-sub p' p s k i x has)), (λ k e l. a.1 k e (s k e l)))

    -- The list of a removal that ends, with what holds of it.
    abbrev pub Ends : ℕ → Removal → Option Removal → (Removal → Type 0) → Type 0
    Ends h r o P = (r' : Removal) × (o ≡ some r') × Removes h r r' × P r'

    -- What the recursive call does for an entry.
    abbrev Clears : (Transaction → Removal → Option Removal) → ℕ → Type 0
    Clears call h =
        (r : Removal) (k : ℕ) (e : Entry)
        → IsConsistent txid r.0
        → IsRanked r.0
        → lookup k r.0.map_tx ≡ some e
        → rank h < rank k
        → Ends k r (call e.tx r) (λ r'. lookup k r'.0.map_tx ≡ none)

    find-gone :
        (r r' : Removal) (o : OutPoint)
        → IsConsistent txid r.0
        → IsConsistent txid r'.0
        → IsSub r'.0 r.0
        → Next.find o r.0.map_next ≡ none
        → Next.find o r'.0.map_next ≡ none
    find-gone r r' o c c' s e = elim (Option-cases (Next.find o r'.0.map_next)) [
      | inl gone ↦ gone
      | inr there ↦ absurd (cc (find-sub txid r'.0 r.0 c' c s o there.0 there.1, e))
    ]

    -- A round of the loop over the outputs.
    remove_spender-Ends :
        (call : Transaction → Removal → Option Removal) (h i : ℕ) (r : Removal)
        → Clears call h
        → IsConsistent txid r.0
        → IsRanked r.0
        → (found : Option InPoint) → Next.find (record { hash = h; n = i }) r.0.map_next ≡ found
        → Ends h r
            (remove_spender call found r)
            (λ r'. Next.find (record { hash = h; n = i }) r'.0.map_next ≡ none)
    remove_spender-Ends call h i r clears c a none f = (r, refl, Removes-self h r c, f)
    remove_spender-Ends call h i r clears c a (some v) f =
        let o : OutPoint = record { hash = h; n = i } in
        let (x, has, same) = c.points o v f in
        let parent : x.prevout.hash ≡ h = ap (λ (u : OutPoint). u.hash) same in
        let above : rank h < rank v.ptx =
          subst (λ j. rank j < rank v.ptx) parent (a.0 v.ptx v.n x has) in
        let (r', ran, m, gone) = clears r v.ptx has.0 c a has.1 above in
        (
          r',
          ap (λ u. call_on call u r) has.1 ∙ ran,
          Removes-child h v.ptx r r' (child h v.ptx v.n x has parent self) m,
          elim (Option-cases (Next.find o r'.0.map_next)) [
            | inl absent ↦ absent
            | inr there ↦
                let still = m.consistent.points o there.0 there.1 in
                let before : some there.0 ≡ some v =
                  sym (find-sub txid r'.0 r.0 m.consistent c m.sub o there.0 there.1) ∙ f in
                let none_there : lookup there.0.ptx r'.0.map_tx ≡ none =
                  ap (λ (u : InPoint). lookup u.ptx r'.0.map_tx) (some-injective _ _ before)
                  ∙ gone in
                absurd (cc (still.1.1, none_there))
          ],
        )

    remove_spenders-Ends :
        (call : Transaction → Removal → Option Removal) (h count i : ℕ) (r : Removal)
        → Clears call h
        → IsConsistent txid r.0
        → IsRanked r.0
        → Ends h r (remove_spenders call h count i r) (λ r'.
          (n : ℕ)
          → i ≤ n
          → n < i + count
          → Next.find (record { hash = h; n = n }) r'.0.map_next ≡ none)
    unfolding remove_spenders
    remove_spenders-Ends call h zero i r clears c a =
        (r, refl, Removes-self h r c, λ n low high. absurd (omega (arith, low, high)))
    remove_spenders-Ends call h (suc count) i r clears c a =
        let (r1, e1, m1, p1) =
          remove_spender-Ends call h i r clears c a
            (Next.find (record { hash = h; n = i }) r.0.map_next) refl in
        let (r2, e2, m2, p2) =
          remove_spenders-Ends call h count (i + 1) r1 clears m1.consistent
            (IsRanked-sub r1.0 r.0 m1.sub a) in
        (
          r2,
          ap (λ o. with_removal o (remove_spenders call h count (i + 1))) e1 ∙ e2,
          Removes-trans h r r1 r2 m1 m2,
          λ n low high. elim (Bool-cases (n == i)) [
            | inl same ↦
                let at : n ≡ i = ground (arith, same) in
                subst (λ j. Next.find (record { hash = h; n = j }) r2.0.map_next ≡ none) (sym at)
                  (find-gone r1 r2 (record { hash = h; n = i }) m1.consistent m2.consistent m2.sub
                    p1)
            | inr other ↦ p2 n (ground (arith, other, low)) (omega (arith, high))
          ],
        )

    -- Entries spend outputs that the transaction has.
    abbrev pub HasOutputs : Transaction → MemPool → Type 0
    HasOutputs tx p =
        (k i : ℕ) (x : TxIn)
        → HasInput p k i x
        → x.prevout.hash ≡ txid tx
        → x.prevout.n < length tx.vout

    remove_entry-Removes :
        (h : ℕ) (tx : Transaction) (r r1 : Removal)
        → ((e : Entry) → lookup h r.0.map_tx ≡ some e → e.tx ≡ tx)
        → Removes h r r1
        → Unspent h r1.0
        → (found : Option Entry) → lookup h r1.0.map_tx ≡ found
        → Removes h r (take_out found h tx r1)
          × (lookup h (take_out found h tx r1).0.map_tx ≡ none)
          × Unspent h (take_out found h tx r1).0
    remove_entry-Removes h tx r r1 own m free none at_h = (m, at_h, free)
    remove_entry-Removes h tx r r1 own m free (some e) at_h =
        let one = take_out-Removes h e r1 m.consistent at_h free in
        subst
          (λ t.
            Removes h r (take_out (some e) h t r1)
            × (lookup h (take_out (some e) h t r1).0.map_tx ≡ none)
            × Unspent h (take_out (some e) h t r1).0)
          (own e (m.sub h e at_h))
          (
            Removes-trans h r r1 _ m one,
            lookup-erase h h r1.0.map_tx ∙ rw (==_self h) refl,
            λ k i x has.
                free k i x (input-sub (take_out (some e) h e.tx r1).0 r1.0 one.sub k i x has),
          )

    forget :
        {h : ℕ} {r : Removal} {o : Option Removal} {P : Removal → Type 0} {Q : Removal → Type 0}
        → Ends h r o (λ r'. P r' × Q r')
        → Ends h r o P
    forget (r', e, m, both) = (r', e, m, both.0)

    remove_entry-Ends :
        (h : ℕ) (tx : Transaction) (r r1 : Removal)
        → txid tx ≡ h
        → HasOutputs tx r.0
        → ((e : Entry) → lookup h r.0.map_tx ≡ some e → e.tx ≡ tx)
        → Removes h r r1
        → ((n : ℕ)
            → n < length tx.vout
            → Next.find (record { hash = h; n = n }) r1.0.map_next ≡ none)
        → (found : Option Entry) → lookup h r1.0.map_tx ≡ found
        → Removes h r (take_out found h tx r1)
          × (lookup h (take_out found h tx r1).0.map_tx ≡ none)
          × Unspent h (take_out found h tx r1).0
    remove_entry-Ends h tx r r1 id outputs own m gone found at_h =
        let free : Unspent h r1.0 = λ k i x has same.
          let inside : x.prevout.n < length tx.vout =
            outputs k i x (input-sub r1.0 r.0 m.sub k i x has) (same ∙ sym id) in
          let at : x.prevout ≡ record { hash = h; n = x.prevout.n } =
            ap (λ j. record { hash = j; n = x.prevout.n }) same in
          let absent : Next.find x.prevout r1.0.map_next ≡ none =
            subst (λ o. Next.find o r1.0.map_next ≡ none) (sym at) (gone x.prevout.n inside) in
          absurd (cc (absent, m.consistent.marked k i x has)) in
        remove_entry-Removes h tx r r1 own m free found at_h

    -- In a consistent pool where each entry spends only transactions of lower rank, with the ranks
    -- of the entries below a bound, entries spend only outputs that the given transaction has, an
    -- entry with its hash is that transaction, and its rank is at most the bound, remove with
    -- fRecursive ends: with a depth of calls of more than the bound, less the rank of the
    -- transaction, it never meets an entry that is gone. What it takes out is the transaction or
    -- descends from it, and is listed in removed, as is what was listed before. The pool that is
    -- left is consistent, has not the transaction, and has no entry that spends an output of it or
    -- of an entry that was taken out.
    pub remove_all-Ends :
        (fuel : ℕ) (tx : Transaction) (r : Removal)
        → IsConsistent txid r.0
        → IsRanked r.0
        → HasOutputs tx r.0
        → ((e : Entry) → lookup (txid tx) r.0.map_tx ≡ some e → e.tx ≡ tx)
        → rank (txid tx) ≤ bound
        → bound < fuel + rank (txid tx)
        → Ends
            (txid tx)
            r
            (remove_all txid fuel tx r)
            (λ r'. (lookup (txid tx) r'.0.map_tx ≡ none) × Unspent (txid tx) r'.0)
    unfolding remove_all
    remove_all-Ends zero tx r c a outputs own low enough = absurd (omega (arith, low, enough))
    remove_all-Ends (suc fuel) tx r c a outputs own low enough =
        let h : ℕ = txid tx in
        let clears : Clears (remove_all txid fuel) h = λ s k e c' a' l above.
          let id : txid e.tx ≡ k = c'.own k e l in
          let below : rank k < bound = a'.1 k e l in
          subst (λ j. Ends j s (remove_all txid fuel e.tx s) (λ r'. lookup j r'.0.map_tx ≡ none)) id
            (forget (
              remove_all-Ends fuel e.tx s c' a'
                (λ m i x has same.
                  (c'.funded m i x e has (ap (λ j. lookup j s.0.map_tx) (same ∙ id) ∙ l)).0)
                (λ g found.
                  ap (λ (u : Entry). u.tx)
                    (some-injective _ _ (sym found ∙ ap (λ j. lookup j s.0.map_tx) id ∙ l)))
                (subst (λ j. rank j ≤ bound) (sym id) (omega (arith, below)))
                (subst (λ j. bound < fuel + rank j) (sym id) (omega (arith, enough, above))))) in
        let (r1, ran, m, gone) =
          remove_spenders-Ends (remove_all txid fuel) h (length tx.vout) 0 r clears c a in
        let last =
          remove_entry-Ends h tx r r1 refl outputs own m
            (λ n inside. gone n (omega arith) (omega (arith, inside))) (lookup h r1.0.map_tx)
            refl in
        (
          remove_entry txid tx r1,
          ap (λ o. with_removal o (λ r'. some (remove_entry txid tx r'))) ran,
          last.0,
          (last.1, last.2),
        )
