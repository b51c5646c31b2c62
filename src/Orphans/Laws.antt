-- ===== src/Orphans/Laws.antt =====
-- The index of the orphans is exact, and stays so.
use darcoin.Common.{
  ℕ, ◌≡◌, refl, sym, ap, ◌∙◌, Bool, Bool-cases, false, not, ◌&&◌, ◌||◌, Option, Option-cases, none,
  some, inl, inr, List, [], ◌∷◌, ltb, ◌==◌, if◌then◌else◌, lookup, insert, lookup-insert,
  lookup-erase, arith,
}
use darcoin.RecentSet.{member, remove}
use darcoin.RecentSet.Laws.{member-remove}
use darcoin.Tx.{Transaction}
use darcoin.Tx.Input.{TxIn}
use darcoin.Tx.Size.{serialize_size}
use darcoin.Orphans.{
  OrphanTx, OrphanPool, hashes_at, add_hash, index_inputs, add_orphan_tx, put_hashes, unindex_found,
  unindex_inputs, erase_found, erase_orphan_tx, erase_orphans_loop, erase_orphans_for,
}

-- Some input spends an output of the transaction p.
abbrev pub spends : ℕ → List TxIn → Bool
spends p [] = false
spends p (i ∷ r) = i.prevout.hash == p || spends p r

abbrev pub orphan_spends : ℕ → Option OrphanTx → Bool
orphan_spends p none = false
orphan_spends p (some o) = spends p o.tx.vin

abbrev pub indexed : ℕ → ℕ → List (ℕ × List ℕ) → Bool
indexed p h m = member h (hashes_at (lookup p m))

-- The index finds exactly the orphans that spend an output of the transaction.
abbrev pub IsIndexed : OrphanPool → Type 0
IsIndexed s = (p h : ℕ) → indexed p h s.by_prev ≡ orphan_spends p (lookup h s.orphans)

member-add_hash : (k h : ℕ) (hs : List ℕ) → member h (add_hash k hs) ≡ (k == h || member h hs)
unfolding member
member-add_hash k h hs = elim (Bool-cases (member k hs)) [
  | inl y ↦ rw y (ground (arith, y))
  | inr n ↦ rw n
]

indexed-index_inputs :
    (vin : List TxIn) (k p h : ℕ) (m : List (ℕ × List ℕ))
    → indexed p h (index_inputs vin k m) ≡ ((k == h && spends p vin) || indexed p h m)
unfolding index_inputs
indexed-index_inputs [] k p h m = ground arith
indexed-index_inputs (i ∷ r) k p h m =
    let q : ℕ = i.prevout.hash in
    let hs : List ℕ = add_hash k (hashes_at (lookup q m)) in
    indexed-index_inputs r k p h (insert q hs m) ∙ elim (Bool-cases (q == p)) [
      | inl y ↦
          let here : q ≡ p = ground (arith, y) in
          rw (lookup-insert q p hs m, y)
            (ground (
              arith,
              member-add_hash k h (hashes_at (lookup q m)),
              ap (λ (j : ℕ). member h (hashes_at (lookup j m))) here,
            ))
      | inr n ↦ rw (lookup-insert q p hs m, n) (ground arith)
    ]

indexed-put_hashes :
    (q p h : ℕ) (hs : List ℕ) (m : List (ℕ × List ℕ))
    → indexed p h (put_hashes q hs m) ≡ (if q == p then member h hs else indexed p h m)
unfolding member
indexed-put_hashes q p h [] m = rw (lookup-erase q p m) (ground arith)
indexed-put_hashes q p h (k ∷ hs) m = rw (lookup-insert q p (k ∷ hs) m) (ground arith)

indexed-unindex_found :
    (q k p h : ℕ) (m : List (ℕ × List ℕ)) (o : Option (List ℕ))
    → lookup q m ≡ o
    → indexed p h (unindex_found q k o m) ≡ (indexed p h m && not (k == h && q == p))
unfolding member
indexed-unindex_found q k p h m none e = elim (Bool-cases (q == p)) [
  | inl y ↦
      let here : q ≡ p = ground (arith, y) in
      let absent : lookup p m ≡ none = ap (λ j. lookup j m) (sym here) ∙ e in rw absent refl
  | inr n ↦ rw n (ground arith)
]
indexed-unindex_found q k p h m (some hs) e =
    indexed-put_hashes q p h (remove k hs) m ∙ elim (Bool-cases (q == p)) [
      | inl y ↦
          let here : q ≡ p = ground (arith, y) in
          let present : lookup p m ≡ some hs = ap (λ j. lookup j m) (sym here) ∙ e in
          rw (y, present) (ground (arith, member-remove h k hs))
      | inr n ↦ rw n (ground arith)
    ]

indexed-unindex_inputs :
    (vin : List TxIn) (k p h : ℕ) (m : List (ℕ × List ℕ))
    → indexed p h (unindex_inputs vin k m) ≡ (indexed p h m && not (k == h && spends p vin))
unfolding unindex_inputs
indexed-unindex_inputs [] k p h m = ground arith
indexed-unindex_inputs (i ∷ r) k p h m =
    let q : ℕ = i.prevout.hash in
    indexed-unindex_inputs r k p h (unindex_found q k (lookup q m) m)
    ∙ rw (indexed-unindex_found q k p h m (lookup q m) refl) (ground arith)

add_orphan_tx-IsIndexed :
    (s : OrphanPool) (k : ℕ) (tx : Transaction) (peer : ℕ)
    → IsIndexed s
    → IsIndexed (add_orphan_tx s k tx peer).1
unfolding add_orphan_tx
add_orphan_tx-IsIndexed s k tx peer w = elim (Option-cases (lookup k s.orphans)) [
  | inr (o, e) ↦ rw (e, add_orphan_tx) w
  | inl e ↦
      rw (e, add_orphan_tx)
        (elim (Bool-cases (ltb 5000 (serialize_size tx))) [
          | inl y ↦ rw y w
          | inr n ↦ rw n (λ p h.
              let o : OrphanTx = record { tx = tx; from_peer = peer } in
              indexed-index_inputs tx.vin k p h s.by_prev
              ∙ rw (lookup-insert k h o s.orphans) (elim (Bool-cases (k == h)) [
                | inl same ↦
                    let here : k ≡ h = ground (arith, same) in
                    let absent : lookup h s.orphans ≡ none =
                      ap (λ j. lookup j s.orphans) (sym here) ∙ e in
                    let old : indexed p h s.by_prev ≡ false = w p h ∙ ap (orphan_spends p) absent in
                    rw (same, old) (ground arith)
                | inr other ↦ rw other (w p h)
              ]))
        ])
]

erase_found-IsIndexed :
    (s : OrphanPool) (k : ℕ) (o : Option OrphanTx)
    → lookup k s.orphans ≡ o
    → IsIndexed s
    → IsIndexed (erase_found s k o)
erase_found-IsIndexed s k none e w p h = w p h
erase_found-IsIndexed s k (some o) e w p h =
    indexed-unindex_inputs o.tx.vin k p h s.by_prev
    ∙ rw (lookup-erase k h s.orphans) (elim (Bool-cases (k == h)) [
      | inl same ↦
          let here : k ≡ h = ground (arith, same) in
          let present : lookup h s.orphans ≡ some o = ap (λ j. lookup j s.orphans) (sym here) ∙ e in
          let old : indexed p h s.by_prev ≡ spends p o.tx.vin =
            w p h ∙ ap (orphan_spends p) present in
          rw (same, old) (ground arith)
      | inr other ↦ rw (other, w p h) (ground arith)
    ])

erase_orphan_tx-IsIndexed : (s : OrphanPool) (k : ℕ) → IsIndexed s → IsIndexed (erase_orphan_tx s k)
unfolding erase_orphan_tx
erase_orphan_tx-IsIndexed s k w = erase_found-IsIndexed s k (lookup k s.orphans) refl w

erase_orphans_loop-IsIndexed :
    (m : List (ℕ × OrphanTx)) (peer : ℕ) (s : OrphanPool)
    → IsIndexed s
    → IsIndexed (erase_orphans_loop m peer s)
unfolding erase_orphans_loop
erase_orphans_loop-IsIndexed [] peer s w = w
erase_orphans_loop-IsIndexed ((k, o) ∷ r) peer s w =
    erase_orphans_loop-IsIndexed r peer (if o.from_peer == peer then erase_orphan_tx s k else s)
      (elim (Bool-cases (o.from_peer == peer)) [
        | inl y ↦ rw y (erase_orphan_tx-IsIndexed s k w)
        | inr n ↦ rw n w
      ])

-- The index of the orphans by what they spend is exact, and adding an orphan, erasing one and erasing
-- those of a peer keep it so.
pub operations-IsIndexed :
    (s : OrphanPool) (k : ℕ) (tx : Transaction) (peer : ℕ)
    → IsIndexed s
    → IsIndexed (add_orphan_tx s k tx peer).1
      × IsIndexed (erase_orphan_tx s k)
      × IsIndexed (erase_orphans_for s peer)
unfolding erase_orphans_for
operations-IsIndexed s k tx peer w = (
  add_orphan_tx-IsIndexed s k tx peer w,
  erase_orphan_tx-IsIndexed s k w,
  erase_orphans_loop-IsIndexed s.orphans peer s w,
)
