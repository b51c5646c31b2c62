-- ===== src/MemPool.antt =====
-- CTxMemPool of txmempool.h and txmempool.cpp. GetHash of a transaction is the argument `txid`. A
-- pointer to the transaction of an entry is its key, and `none` is a pointer to an entry that is
-- gone.
pub mod Next
pub mod Consistent
pub mod Remove
pub mod Conflicts
pub mod Add
pub mod View
use darcoin.Common.{
  ℕ, zero, suc, ◌+◌, ◌%◌, ◌^◌, Bool, true, false, not, Option, none, some, List, [], ◌∷◌, ℤ,
  if◌then◌else◌, lookup, insert, erase, length,
}
use darcoin.Tx
use darcoin.Tx.{Transaction}
use darcoin.Tx.Prevout.{OutPoint}
use darcoin.Tx.Input.{TxIn}
use Next
use Next.{InPoint}

-- CTxMemPoolEntry. The priority is the bits of a double.
pub record Entry : Type 0 where
  pub tx : Transaction
  pub fee : ℤ
  pub tx_size : ℕ
  pub time : ℤ
  pub priority : ℕ
  pub height : ℕ

pub record MemPool : Type 0 where
  pub map_tx : List (ℕ × Entry)
  pub map_next : List (OutPoint × InPoint)
  pub updated : ℕ

-- AddTransactionsUpdated, on an unsigned int
abbrev pub add_updated : ℕ → MemPool → MemPool
add_updated n p = record p { updated = (p.updated + n) % 2 ^ 32 }

-- The loop of addUnchecked over the inputs, from the position `i` on.
unfoldable pub mark_inputs :
    ℕ → ℕ → List TxIn → List (OutPoint × InPoint) → List (OutPoint × InPoint)
mark_inputs hash i [] m = m
mark_inputs hash i (x ∷ r) m =
    mark_inputs hash (i + 1) r (Next.put x.prevout (record { ptx = hash; n = i }) m)

-- addUnchecked
unfoldable pub add_unchecked : MemPool → ℕ → Entry → MemPool
unfolding mark_inputs
add_unchecked p hash entry = add_updated 1 (record {
  map_tx = insert hash entry p.map_tx;
  map_next = mark_inputs hash 0 entry.tx.vin p.map_next;
  updated = p.updated;
})

-- The loop of remove over the inputs.
unfoldable pub unmark_inputs : List TxIn → List (OutPoint × InPoint) → List (OutPoint × InPoint)
unmark_inputs [] m = m
unmark_inputs (x ∷ r) m = unmark_inputs r (Next.erase x.prevout m)

-- A pool and the list `removed`
abbrev pub Removal : Type 0
Removal = MemPool × List Transaction

-- The end of remove, for the entry of the hash, if there is one.
abbrev pub take_out : Option Entry → ℕ → Transaction → Removal → Removal
take_out none hash tx (p, removed) = (p, removed)
take_out (some e) hash tx (p, removed) = (
  add_updated 1 (record {
    map_tx = erase hash p.map_tx;
    map_next = unmark_inputs tx.vin p.map_next;
    updated = p.updated;
  }),
  tx ∷ removed,
)

abbrev pub with_removal : Option Removal → (Removal → Option Removal) → Option Removal
with_removal none f = none
with_removal (some r) f = f r

-- The call of a method on the transaction of an entry.
abbrev pub call_on :
    (Transaction → Removal → Option Removal) → Option Entry → Removal → Option Removal
call_on call none r = none
call_on call (some e) r = call e.tx r

-- remove(*it->second.ptx, removed, true), where `it` is what find gave.
abbrev pub remove_spender :
    (Transaction → Removal → Option Removal) → Option InPoint → Removal → Option Removal
remove_spender call none r = some r
remove_spender call (some x) r = call_on call (lookup x.ptx r.0.map_tx) r

-- The loop of remove over the outputs, from the position `i` on.
unfoldable pub remove_spenders :
    (Transaction → Removal → Option Removal) → ℕ → ℕ → ℕ → Removal → Option Removal
remove_spenders call hash zero i r = some r
remove_spenders call hash (suc count) i r =
    with_removal (remove_spender call (Next.find (record { hash = hash; n = i }) r.0.map_next) r)
      (remove_spenders call hash count (i + 1))

module _ (txid : Transaction → ℕ) where
  -- remove without fRecursive
  abbrev pub remove_entry : Transaction → Removal → Removal
  remove_entry tx r = take_out (lookup (txid tx) r.0.map_tx) (txid tx) tx r

  -- remove with fRecursive; the number bounds the depth of the calls.
  unfoldable pub remove_all : ℕ → Transaction → Removal → Option Removal
  unfolding remove_spenders unmark_inputs
  remove_all zero tx r = none
  remove_all (suc fuel) tx r =
      with_removal (remove_spenders (remove_all fuel) (txid tx) (length tx.vout) 0 r)
        (λ r'. some (remove_entry tx r'))

  -- remove(txConflict, removed, true) unless it is the transaction
  abbrev pub remove_other : ℕ → Transaction → Transaction → Removal → Option Removal
  remove_other fuel tx conflict r =
      if not (Tx.eq conflict tx) then remove_all fuel conflict r else some r

  -- A round of removeConflicts, where `found` is what find gave for the input.
  abbrev pub remove_conflict : ℕ → Transaction → Option InPoint → Removal → Option Removal
  remove_conflict fuel tx none r = some r
  remove_conflict fuel tx (some x) r = call_on (remove_other fuel tx) (lookup x.ptx r.0.map_tx) r

  -- removeConflicts, over the inputs
  unfoldable pub remove_conflicts : ℕ → Transaction → List TxIn → Removal → Option Removal
  unfolding remove_all Tx.eq
  remove_conflicts fuel tx [] r = some r
  remove_conflicts fuel tx (x ∷ inputs) r =
      with_removal (remove_conflict fuel tx (Next.find x.prevout r.0.map_next) r)
        (remove_conflicts fuel tx inputs)

-- clear
abbrev pub clear_all : MemPool → MemPool
clear_all p = add_updated 1 (record { map_tx = []; map_next = []; updated = p.updated })

-- exists
abbrev pub has_entry : Option Entry → Bool
has_entry none = false
has_entry (some e) = true

abbrev pub exists : MemPool → ℕ → Bool
exists p hash = has_entry (lookup hash p.map_tx)

-- lookup
abbrev pub tx_of : Option Entry → Option Transaction
tx_of none = none
tx_of (some e) = some e.tx

abbrev pub lookup_tx : MemPool → ℕ → Option Transaction
lookup_tx p hash = tx_of (lookup hash p.map_tx)

-- queryHashes
unfoldable pub keys : List (ℕ × Entry) → List ℕ
keys [] = []
keys ((k, e) ∷ r) = k ∷ keys r

abbrev pub query_hashes : MemPool → List ℕ
query_hashes p = keys p.map_tx
