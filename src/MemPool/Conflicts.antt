-- ===== src/MemPool/Conflicts.antt =====
-- removeConflicts of CTxMemPool (txmempool.cpp).
use mathlib.Core.Option.{some-injective}
use darcoin.Common.{
  ℕ, zero, suc, ◌<◌, ◌≡◌, ◌⊎◌, inl, inr, refl, sym, ap, ◌∙◌, subst, true, false, Bool-cases, Option,
  none, some, List, [], ◌∷◌, lookup, get_elem?, arith,
}
use darcoin.Tx
use darcoin.Tx.{Transaction}
use darcoin.Tx.Laws.{eq-fields}
use darcoin.Tx.Prevout.{OutPoint}
use darcoin.Tx.Input.{TxIn}
use darcoin.MemPool.Next
use darcoin.MemPool.Next.{InPoint}
use darcoin.MemPool.{
  Entry, MemPool, Removal, with_removal, call_on, remove_other, remove_conflict, remove_conflicts,
}
use darcoin.MemPool.Consistent.{HasInput, IsConsistent, IsSub}
use darcoin.MemPool.Remove.{
  Descends, IsListed, IsRanked, input-sub, Descends-sub, IsRanked-sub, remove_all-Ends,
}

-- An entry that spends one of the outputs and is another transaction.
abbrev pub IsConflict : Transaction → (OutPoint → Type 0) → MemPool → ℕ → Type 0
IsConflict tx outputs p c =
    (i : ℕ) × (x : TxIn) × (has : HasInput p c i x) × outputs x.prevout
    × (Tx.eq has.0.tx tx ≡ false)

split :
    (y : TxIn) (inputs : List TxIn) (o : OutPoint)
    → (j : ℕ) × (z : TxIn) × (get_elem? (y ∷ inputs) j ≡ some z) × (o ≡ z.prevout)
    → (o ≡ y.prevout) ⊎ ((j : ℕ) × (z : TxIn) × (get_elem? inputs j ≡ some z) × (o ≡ z.prevout))
split y inputs o (zero, z, e, same) =
    inl (same ∙ ap (λ (u : TxIn). u.prevout) (sym (some-injective _ _ e)))
split y inputs o (suc j, z, e, same) = inr (j, z, e, same)

module _ (txid : Transaction → ℕ) (tx : Transaction) where
  -- What the removal of the conflicts makes of a pool and a list.
  pub record Cleans (outputs : OutPoint → Type 0) (r r' : Removal) : Type 0 where
    pub consistent : IsConsistent txid r'.0
    pub sub : IsSub r'.0 r.0
    pub clean :
        (k i : ℕ) (x : TxIn) (has : HasInput r'.0 k i x)
        → outputs x.prevout
        → Tx.eq has.0.tx tx ≡ true
    pub only :
        (k : ℕ) (e : Entry)
        → lookup k r.0.map_tx ≡ some e
        → (lookup k r'.0.map_tx ≡ some e)
          ⊎ ((c : ℕ) × IsConflict tx outputs r.0 c × Descends r.0 c k × IsListed e.tx r'.1)
    pub grows : (t : Transaction) → IsListed t r.1 → IsListed t r'.1

  Cleans-trans :
      (A B C : OutPoint → Type 0) (r s t : Removal)
      → ((o : OutPoint) → A o → C o)
      → ((o : OutPoint) → B o → C o)
      → ((o : OutPoint) → C o → A o ⊎ B o)
      → Cleans A r s
      → Cleans B s t
      → Cleans C r t
  Cleans-trans A B C r s t ac bc cab a b = record {
    consistent = b.consistent;
    sub = λ k e l. a.sub k e (b.sub k e l);
    clean = λ k i x has o. elim (cab x.prevout o) [
      | inl p ↦ a.clean k i x (input-sub t.0 s.0 b.sub k i x has) p
      | inr q ↦ b.clean k i x has q
    ];
    only = λ k e l. elim (a.only k e l) [
      | inr (c, (i, x, has, o, other), d, listed) ↦
          inr (c, (i, x, has, ac x.prevout o, other), d, b.grows e.tx listed)
      | inl there ↦ elim (b.only k e there) [
        | inl still ↦ inl still
        | inr (c, (i, x, has, o, other), d, listed) ↦ inr (
          c,
          (i, x, input-sub s.0 r.0 a.sub c i x has, bc x.prevout o, other),
          Descends-sub s.0 r.0 c k a.sub d,
          listed,
        )
      ]
    ];
    grows = λ u l. b.grows u (a.grows u l);
  }

  Cleans-same :
      (A : OutPoint → Type 0) (r : Removal)
      → IsConsistent txid r.0
      → ((k i : ℕ) (x : TxIn) (has : HasInput r.0 k i x) → A x.prevout → Tx.eq has.0.tx tx ≡ true)
      → Cleans A r r
  Cleans-same A r c clean = record {
    consistent = c;
    sub = λ k e l. l;
    clean = clean;
    only = λ k e l. inl l;
    grows = λ t l. l;
  }

  module _ (rank : ℕ → ℕ) (bound fuel : ℕ) (enough : bound < fuel) where
    -- A round of the loop.
    remove_conflict-Cleans :
        (y : TxIn) (r : Removal)
        → IsConsistent txid r.0
        → IsRanked txid rank bound r.0
        → (found : Option InPoint) → Next.find y.prevout r.0.map_next ≡ found
        → (r' : Removal) × (remove_conflict txid fuel tx found r ≡ some r')
          × Cleans (λ o. o ≡ y.prevout) r r'
    unfolding remove_conflicts
    remove_conflict-Cleans y r c a none f = (
      r,
      refl,
      Cleans-same (λ o. o ≡ y.prevout) r c
          (λ k i x has same.
            absurd
              (cc (sym f ∙ ap (λ o. Next.find o r.0.map_next) (sym same) ∙ c.marked k i x has))),
    )
    remove_conflict-Cleans y r c a (some v) f =
        let (x, has, same) = c.points y.prevout v f in
        let unique = λ (k i : ℕ) (z : TxIn) (h : HasInput r.0 k i z) (at : z.prevout ≡ y.prevout).
          ap (λ (u : InPoint). u.ptx)
            (some-injective _ _
              (sym (c.marked k i z h) ∙ ap (λ o. Next.find o r.0.map_next) at ∙ f)) in
        elim (Bool-cases (Tx.eq has.0.tx tx)) [
          | inl equal ↦ (
            r,
            ap (λ u. call_on (remove_other txid fuel tx) u r) has.1 ∙ rw equal refl,
            Cleans-same (λ o. o ≡ y.prevout) r c
                (λ k i z h at.
                  let both : some h.0 ≡ some has.0 =
                    sym h.1 ∙ ap (λ j. lookup j r.0.map_tx) (unique k i z h at) ∙ has.1 in
                  subst (λ (g : Entry). Tx.eq g.tx tx ≡ true) (some-injective _ _ (sym both))
                    equal),
          )
          | inr other ↦
              let id : txid has.0.tx ≡ v.ptx = c.own v.ptx has.0 has.1 in
              let at_id : lookup (txid has.0.tx) r.0.map_tx ≡ some has.0 =
                ap (λ j. lookup j r.0.map_tx) id ∙ has.1 in
              let below : rank (txid has.0.tx) < bound = a.1 (txid has.0.tx) has.0 at_id in
              let (r', ran, m, gone) =
                remove_all-Ends txid rank bound fuel has.0.tx r c a
                  (λ k i z h at.
                    (c.funded k i z has.0 h (ap (λ j. lookup j r.0.map_tx) at ∙ at_id)).0)
                  (λ g found. ap (λ (u : Entry). u.tx) (some-injective _ _ (sym found ∙ at_id)))
                  (omega (arith, below)) (omega (arith, enough)) in
              (
                r',
                ap (λ u. call_on (remove_other txid fuel tx) u r) has.1 ∙ rw other ran,
                record {
                  consistent = m.consistent;
                  sub = m.sub;
                  clean = λ k i z h at.
                      let here : k ≡ txid has.0.tx =
                        unique k i z (input-sub r'.0 r.0 m.sub k i z h) at ∙ sym id in
                      absurd (cc (sym h.1 ∙ ap (λ j. lookup j r'.0.map_tx) here ∙ gone.0));
                  only = λ k e l. elim (m.only k e l) [
                    | inl still ↦ inl still
                    | inr (d, listed) ↦ inr (
                      v.ptx,
                      (v.n, x, has, same, other),
                      subst (λ j. Descends r.0 j k) id d,
                      listed,
                    )
                  ];
                  grows = m.grows;
                },
              )
        ]

    -- In a consistent pool where each entry spends only transactions of lower rank, with the ranks
    -- below a bound, removeConflicts, with a depth of calls of more than the bound, ends and leaves
    -- a consistent pool in which every entry that spends what an input of the transaction spends is
    -- equal to it by operator==. What it takes out is, or descends from, an entry that spends such
    -- an output and is not equal to the transaction, and is listed in removed, as is what was
    -- listed before.
    pub remove_conflicts-Cleans :
        (inputs : List TxIn) (r : Removal)
        → IsConsistent txid r.0
        → IsRanked txid rank bound r.0
        → (r' : Removal) × (remove_conflicts txid fuel tx inputs r ≡ some r')
          × Cleans
              (λ o. (j : ℕ) × (y : TxIn) × (get_elem? inputs j ≡ some y) × (o ≡ y.prevout))
              r
              r'
    unfolding remove_conflicts
    remove_conflicts-Cleans [] r c a = (r, refl, Cleans-same _ r c (λ k i x has o. absurd (cc o.2)))
    remove_conflicts-Cleans (y ∷ inputs) r c a =
        let (r1, e1, m1) = remove_conflict-Cleans y r c a (Next.find y.prevout r.0.map_next) refl in
        let (r2, e2, m2) =
          remove_conflicts-Cleans inputs r1 m1.consistent
            (IsRanked-sub txid rank bound r1.0 r.0 m1.sub a) in
        (
          r2,
          ap (λ o. with_removal o (remove_conflicts txid fuel tx inputs)) e1 ∙ e2,
          Cleans-trans _ _ _ r r1 r2 (λ o same. (0, y, refl, same))
              (λ o at. (suc at.0, at.1, at.2, at.3)) (split y inputs) m1 m2,
        )

  -- In a consistent pool where every entry that spends what an input of the transaction spends has the
  -- version, the inputs, the outputs and the lock time of the transaction, removeConflicts changes
  -- nothing, whatever messages and documents these entries have.
  pub remove_conflicts-unchanged :
      (fuel : ℕ) (inputs : List TxIn) (r : Removal)
      → IsConsistent txid r.0
      → ((k i : ℕ) (x : TxIn) (has : HasInput r.0 k i x) (j : ℕ) (y : TxIn)
          → get_elem? inputs j ≡ some y
          → x.prevout ≡ y.prevout
          → (has.0.tx.version ≡ tx.version)
            × (has.0.tx.vin ≡ tx.vin)
            × (has.0.tx.vout ≡ tx.vout)
            × (has.0.tx.lock_time ≡ tx.lock_time))
      → remove_conflicts txid fuel tx inputs r ≡ some r
  unfolding remove_conflicts
  remove_conflicts-unchanged fuel [] r c equal = refl
  remove_conflicts-unchanged fuel (y ∷ inputs) r c equal =
      ap (λ o. with_removal o (remove_conflicts txid fuel tx inputs))
        (round (Next.find y.prevout r.0.map_next) refl)
      ∙ remove_conflicts-unchanged fuel inputs r c (λ k i x has j z e. equal k i x has (suc j) z e)
    where
      round :
          (found : Option InPoint)
          → Next.find y.prevout r.0.map_next ≡ found
          → remove_conflict txid fuel tx found r ≡ some r
      round none f = refl
      round (some v) f =
          let (x, has, same) = c.points y.prevout v f in
          ap (λ u. call_on (remove_other txid fuel tx) u r) has.1
          ∙ rw (eq-fields has.0.tx tx (equal v.ptx v.n x has 0 y refl same)) refl
