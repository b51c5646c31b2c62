-- ===== src/Orphans.antt =====
-- The orphan transactions of main.cpp: mapOrphanTransactions, and mapOrphanTransactionsByPrev, which
-- finds them by the transactions that they spend. GetHash of a transaction is an argument.
pub mod Laws
use darcoin.Common.{
  ℕ, Bool, true, false, Option, none, some, List, [], ◌∷◌, ltb, ◌==◌, if◌then◌else◌, lookup, insert,
  erase,
}
use darcoin.RecentSet.{member, remove}
use darcoin.Tx.{Transaction}
use darcoin.Tx.Input.{TxIn}
use darcoin.Tx.Size.{serialize_size}

-- COrphanTx
pub record OrphanTx : Type 0 where
  pub tx : Transaction
  pub from_peer : ℕ

pub record OrphanPool : Type 0 where
  pub orphans : List (ℕ × OrphanTx)
  pub by_prev : List (ℕ × List ℕ)

-- The set of m[prev], which operator[] makes where there is none.
abbrev pub hashes_at : Option (List ℕ) → List ℕ
hashes_at none = []
hashes_at (some hs) = hs

abbrev pub add_hash : ℕ → List ℕ → List ℕ
add_hash k hs = if member k hs then hs else k ∷ hs

-- The loop of AddOrphanTx over the inputs.
pub index_inputs : List TxIn → ℕ → List (ℕ × List ℕ) → List (ℕ × List ℕ)
index_inputs [] k m = m
index_inputs (i ∷ r) k m =
    index_inputs r k (insert i.prevout.hash (add_hash k (hashes_at (lookup i.prevout.hash m))) m)

-- AddOrphanTx
pub add_orphan_tx : OrphanPool → ℕ → Transaction → ℕ → Bool × OrphanPool
add_orphan_tx s k tx peer = elim (lookup k s.orphans) [
  | some o ↦ (false, s)
  | none ↦ if ltb 5000 (serialize_size tx) then (false, s) else (
    true,
    record {
      orphans = insert k (record { tx = tx; from_peer = peer }) s.orphans;
      by_prev = index_inputs tx.vin k s.by_prev;
    },
  )
]

-- itPrev->second.erase(hash), and the entry goes where its set is empty.
abbrev pub put_hashes : ℕ → List ℕ → List (ℕ × List ℕ) → List (ℕ × List ℕ)
put_hashes p [] m = erase p m
put_hashes p (h ∷ hs) m = insert p (h ∷ hs) m

abbrev pub unindex_found : ℕ → ℕ → Option (List ℕ) → List (ℕ × List ℕ) → List (ℕ × List ℕ)
unindex_found p k none m = m
unindex_found p k (some hs) m = put_hashes p (remove k hs) m

-- The loop of EraseOrphanTx over the inputs.
pub unindex_inputs : List TxIn → ℕ → List (ℕ × List ℕ) → List (ℕ × List ℕ)
unindex_inputs [] k m = m
unindex_inputs (i ∷ r) k m =
    unindex_inputs r k (unindex_found i.prevout.hash k (lookup i.prevout.hash m) m)

abbrev pub erase_found : OrphanPool → ℕ → Option OrphanTx → OrphanPool
erase_found s k none = s
erase_found s k (some o) = record {
  orphans = erase k s.orphans;
  by_prev = unindex_inputs o.tx.vin k s.by_prev;
}

-- EraseOrphanTx
pub erase_orphan_tx : OrphanPool → ℕ → OrphanPool
erase_orphan_tx s k = erase_found s k (lookup k s.orphans)

-- The loop of EraseOrphansFor, over the entries as they were before it. The hash of an entry's
-- transaction is its key.
pub erase_orphans_loop : List (ℕ × OrphanTx) → ℕ → OrphanPool → OrphanPool
unfolding erase_orphan_tx
erase_orphans_loop [] peer s = s
erase_orphans_loop ((k, o) ∷ r) peer s =
    erase_orphans_loop r peer (if o.from_peer == peer then erase_orphan_tx s k else s)

-- EraseOrphansFor
pub erase_orphans_for : OrphanPool → ℕ → OrphanPool
unfolding erase_orphans_loop
erase_orphans_for s peer = erase_orphans_loop s.orphans peer s
