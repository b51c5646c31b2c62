-- ===== src/Tests/Pools.antt =====
-- A memory pool of a transaction and one that spends it. The lock time and the length of the
-- message stand for the hash.
use mathlib.Core.Option.{some-injective}
use darcoin.Common.{
  ℕ, zero, suc, ◌+◌, ◌<◌, ◌≡◌, refl, sym, ap, subst, ◌∙◌, insert, erase, false, none, some, [], ◌∷◌,
  pos, lookup, length, get_elem?, arith,
}
use darcoin.Tx.{Transaction}
use darcoin.Tx.Input.{TxIn}
use darcoin.Tx.Output
use darcoin.MemPool.{Entry, MemPool, Removal, add_unchecked, remove_all, remove_conflicts}
use darcoin.MemPool.Next
use darcoin.MemPool.Consistent.{HasInput, IsConsistent, Provides}
use darcoin.MemPool.Remove.{Removes, IsRanked, Unspent, remove_all-Ends}
use darcoin.MemPool.Conflicts.{Cleans, remove_conflicts-Cleans, remove_conflicts-unchanged}
use darcoin.MemPool.Add.{
  IsAddable, add_unchecked-IsConsistent, add_unchecked-IsRanked, empty-IsConsistent, empty-IsRanked,
}
use darcoin.MemPool.View.{mempool_view, mempool_view-IsCoinsView}
use darcoin.View.{IsCoinsView}
use darcoin.Coins.{Coins, coins_of}
use darcoin.View.Base.{NoView, base_view, base_view-IsCoinsView}
use darcoin.Tests.Data.{payment, first_input}

abbrev txid : Transaction → ℕ
txid tx = tx.lock_time + length tx.message

abbrev entry_of : Transaction → Entry
entry_of tx = record {
  tx = tx;
  fee = pos 10;
  tx_size = 100;
  time = pos 0;
  priority = 0;
  height = 5;
}

abbrev parent : Transaction
parent = record payment { lock_time = 10 }

abbrev spending_input : TxIn
spending_input = record first_input { prevout = record { hash = 10; n = 1 } }

abbrev spender : Transaction
spender = record payment { vin = spending_input ∷ []; lock_time = 11 }

abbrev empty : MemPool
empty = record { map_tx = []; map_next = []; updated = 0 }

abbrev one : MemPool
one = add_unchecked empty 10 (entry_of parent)

abbrev two : MemPool
two = add_unchecked one 11 (entry_of spender)

alone : (y : TxIn) (i : ℕ) (x : TxIn) → get_elem? (y ∷ []) i ≡ some x → (i ≡ 0) × (y ≡ x)
alone y zero x e = (refl, some-injective _ _ e)
alone y (suc i) x e = cc e

parent-IsAddable : IsAddable txid empty 10 (entry_of parent)
unfolding lookup Next.find
parent-IsAddable = record {
  id = refl;
  new = refl;
  distinct = λ i j x y e f s. (alone first_input i x e).0 ∙ sym (alone first_input j y f).0;
  unspent = λ i x e. refl;
  funded = λ i x g e l. absurd (cc l);
  not_own =
      λ i x e s. omega (arith, s, ap (λ (u : TxIn). u.prevout.hash) (alone first_input i x e).1);
  spent_by = λ k i x has e. absurd (cc has.1);
}

one-IsConsistent : IsConsistent txid one
one-IsConsistent =
    add_unchecked-IsConsistent txid empty 10 (entry_of parent) (empty-IsConsistent txid 0)
      parent-IsAddable

one-IsRanked : (bound : ℕ) → 10 < bound → IsRanked txid (λ n. n) bound one
one-IsRanked bound l =
    add_unchecked-IsRanked txid empty 10 (entry_of parent) (empty-IsConsistent txid 0)
      parent-IsAddable (λ n. n) bound (empty-IsRanked txid (λ n. n) bound 0)
      (λ i x e. omega (arith, ap (λ (u : TxIn). u.prevout.hash) (alone first_input i x e).1)) l

spender-IsAddable : IsAddable txid one 11 (entry_of spender)
unfolding add_unchecked lookup insert Next.find Next.put
spender-IsAddable = record {
  id = refl;
  new = refl;
  distinct = λ i j x y e f s. (alone spending_input i x e).0 ∙ sym (alone spending_input j y f).0;
  unspent = λ i x e.
      subst (λ (u : TxIn). Next.find u.prevout one.map_next ≡ none) (alone spending_input i x e).1
        refl;
  funded = λ i x g e l.
      let at : lookup 10 one.map_tx ≡ some g =
        subst (λ (u : TxIn). lookup u.prevout.hash one.map_tx ≡ some g)
          (sym (alone spending_input i x e).1) l in
      let same : entry_of parent ≡ g = some-injective _ _ at in
      subst (λ (u : Entry). Provides u.tx x.prevout.n) same
        (subst (λ (u : TxIn). Provides parent u.prevout.n) (alone spending_input i x e).1
          (
            (omega arith),
            (λ o at. subst (λ y. Output.is_null y ≡ false) (some-injective _ _ at) refl),
          ));
  not_own =
      λ i x e s. omega (arith, s, ap (λ (u : TxIn). u.prevout.hash) (alone spending_input i x e).1);
  spent_by = λ k i x has e.
      let ranked = one-IsRanked 11 (omega arith) in
      absurd (omega (arith, e, ranked.0 k i x has, ranked.1 k has.0 has.1));
}

two-IsConsistent : IsConsistent txid two
two-IsConsistent =
    add_unchecked-IsConsistent txid one 11 (entry_of spender) one-IsConsistent spender-IsAddable

two-IsRanked : IsRanked txid (λ n. n) 12 two
two-IsRanked =
    add_unchecked-IsRanked txid one 11 (entry_of spender) one-IsConsistent spender-IsAddable
      (λ n. n) 12 (one-IsRanked 12 (omega arith))
      (λ i x e. omega (arith, ap (λ (u : TxIn). u.prevout.hash) (alone spending_input i x e).1))
      (omega arith)

parent_found : (e : Entry) → lookup 10 two.map_tx ≡ some e → entry_of parent ≡ e
unfolding add_unchecked lookup insert
parent_found e l = some-injective _ _ l

add_unchecked-IsConsistent_example : IsConsistent txid two
add_unchecked-IsConsistent_example =
    add_unchecked-IsConsistent txid one 11 (entry_of spender) one-IsConsistent spender-IsAddable

remove_all-Ends_example :
    (r : Removal) × (remove_all txid 13 parent (two, []) ≡ some r)
    × Removes txid 10 (two, []) r
    × ((lookup 10 r.0.map_tx ≡ none) × Unspent txid 10 r.0)
unfolding add_unchecked lookup insert
remove_all-Ends_example =
    remove_all-Ends txid (λ n. n) 12 13 parent (two, []) two-IsConsistent two-IsRanked
      (λ k i x has e.
        (two-IsConsistent.funded k i x (entry_of parent) has (ap (λ h. lookup h two.map_tx) e)).0)
      (λ e l. ap (λ (u : Entry). u.tx) (sym (parent_found e l))) (omega arith) (omega arith)

both_removed :
    (remove_all txid 13 parent (two, []))
    ≡ some (record { map_tx = []; map_next = []; updated = 4 }, parent ∷ spender ∷ [])
unfolding add_unchecked remove_all lookup insert erase Next.find Next.put Next.erase
both_removed = refl

-- It spends what the parent spends.
abbrev rival : Transaction
rival = record payment { version = pos 2; lock_time = 12 }

remove_conflicts-Cleans_example :
    (r : Removal) × (remove_conflicts txid 13 rival rival.vin (two, []) ≡ some r)
    × Cleans txid rival
        (λ o. (j : ℕ) × (y : TxIn) × (get_elem? rival.vin j ≡ some y) × (o ≡ y.prevout))
        (two, [])
        r
remove_conflicts-Cleans_example =
    remove_conflicts-Cleans txid rival (λ n. n) 12 13 (omega arith) rival.vin (two, [])
      two-IsConsistent two-IsRanked

-- It has another message, and so another hash.
abbrev twin : Transaction
twin = record parent { message = 7 ∷ [] }

spends_first : (k i : ℕ) (x : TxIn) → HasInput two k i x → x.prevout ≡ first_input.prevout → k ≡ 10
unfolding add_unchecked Next.find Next.put
spends_first k i x has e =
    ap (λ (v : Next.InPoint). v.ptx)
      (some-injective _ _
        (sym (two-IsConsistent.marked k i x has) ∙ ap (λ o. Next.find o two.map_next) e))

twin_agrees :
    (k i : ℕ) (x : TxIn) (has : HasInput two k i x) (j : ℕ) (y : TxIn)
    → get_elem? twin.vin j ≡ some y
    → x.prevout ≡ y.prevout
    → (has.0.tx.version ≡ twin.version)
      × (has.0.tx.vin ≡ twin.vin)
      × (has.0.tx.vout ≡ twin.vout)
      × (has.0.tx.lock_time ≡ twin.lock_time)
twin_agrees k i x has j y e same =
    let at : k ≡ 10 =
      spends_first k i x has
        (same ∙ ap (λ (u : TxIn). u.prevout) (sym (alone first_input j y e).1)) in
    subst
      (λ (u : Entry).
        (u.tx.version ≡ twin.version)
        × (u.tx.vin ≡ twin.vin)
        × (u.tx.vout ≡ twin.vout)
        × (u.tx.lock_time ≡ twin.lock_time))
      (parent_found has.0 (ap (λ h. lookup h two.map_tx) (sym at) ∙ has.1)) (refl, refl, refl, refl)

remove_conflicts-unchanged_example :
    remove_conflicts txid 13 twin twin.vin (two, []) ≡ some (two, [])
remove_conflicts-unchanged_example =
    remove_conflicts-unchanged txid twin 13 twin.vin (two, []) two-IsConsistent twin_agrees

mempool_view-IsCoinsView_example :
    (d : IsCoinsView (mempool_view base_view)) × ((s : NoView) (p : MemPool)
      → (d.best (s, p) ≡ base_view-IsCoinsView.best s)
        × ((k : ℕ)
            → ((b : Coins) → base_view-IsCoinsView.look s k ≡ some b → d.look (s, p) k ≡ some b)
              × ((e : Entry)
                  → base_view-IsCoinsView.look s k ≡ none
                  → lookup k p.map_tx ≡ some e
                  → d.look (s, p) k ≡ some (coins_of e.tx 0x7FFFFFFF))
              × (base_view-IsCoinsView.look s k ≡ none
                  → lookup k p.map_tx ≡ none
                  → d.look (s, p) k ≡ none)))
mempool_view-IsCoinsView_example = mempool_view-IsCoinsView base_view base_view-IsCoinsView
