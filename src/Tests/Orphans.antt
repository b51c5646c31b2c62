-- ===== src/Tests/Orphans.antt =====
-- A pool with one orphan.
use darcoin.Common.{[], ◌∷◌, lookup, arith}
use darcoin.RecentSet.{member}
use darcoin.Orphans.{OrphanPool, add_orphan_tx, erase_orphan_tx, erase_orphans_for}
use darcoin.Orphans.Laws.{IsIndexed, operations-IsIndexed}
use darcoin.Tests.Data.{payment, locked}

abbrev pool : OrphanPool
pool = record {
  orphans = (9, record { tx = payment; from_peer = 3 }) ∷ [];
  by_prev = (5, 9 ∷ []) ∷ [];
}

pool-IsIndexed : IsIndexed pool
unfolding lookup member
pool-IsIndexed p h = ground arith

operations-IsIndexed_example :
    IsIndexed (add_orphan_tx pool 9 locked 4).1
    × IsIndexed (erase_orphan_tx pool 9)
    × IsIndexed (erase_orphans_for pool 4)
operations-IsIndexed_example = operations-IsIndexed pool 9 locked 4 pool-IsIndexed
