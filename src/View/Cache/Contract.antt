-- ===== src/View/Cache/Contract.antt =====
-- A cache keeps the contract of a view, whatever view that keeps the contract stands behind it.
use mathlib.Core.Path.{fun_ext}
use darcoin.Common.{
  ℕ, ◌≡◌, refl, ap, ◌∙◌, inl, inr, Bool-cases, true, Option, Option-cases, none, some, List, [],
  ◌∷◌, ◌==◌, ==_iff, if◌then◌else◌, lookup, insert, lookup-insert, or_else, last_value, Ascending,
  last_value-lookup, insert-Ascending, arith,
}
use darcoin.Coins.{Coins}
use darcoin.View.{CoinsView, IsCoinsView, is_some}
use darcoin.View.Cache.{
  ViewCache, write_all, remember, fetch_coins, set_coins, have_coins, get_best_block,
  set_best_block, batch_write, flush, cache_view,
}

lookup-write_all :
    (j : ℕ) (m cache : List (ℕ × Coins))
    → lookup j (write_all m cache) ≡ or_else (last_value j m) (lookup j cache)
unfolding write_all last_value
lookup-write_all j [] cache = refl
lookup-write_all j ((k, c) ∷ m) cache =
    lookup-write_all j m (insert k c cache) ∙ ground (arith, lookup-insert k j c cache)

module _ {S : Type 0} (v : CoinsView S) (l : IsCoinsView v) where
  -- The coins and the best block that a cache shows.
  unfoldable pub look : ViewCache S → ℕ → Option Coins
  look s k = or_else (lookup k s.cache_coins) (l.look s.base k)

  pub best : ViewCache S → ℕ
  best s = if s.hash_block == 0 then l.best s.base else s.hash_block

  -- A read answers what the cache shows, and changes nothing of it.
  fetch_result : (s : ViewCache S) (k : ℕ) → (fetch_coins v s k).0 ≡ look s k
  unfolding fetch_coins look best
  fetch_result s k = ground (arith, l.get_result s.base k)

  remember_look :
      (s : ViewCache S) (k j : ℕ) (r : Option Coins × S)
      → lookup k s.cache_coins ≡ none
      → r.0 ≡ l.look s.base k
      → l.look r.1 j ≡ l.look s.base j
      → look (remember v s k r).1 j ≡ look s j
  unfolding look
  remember_look s k j (none, b) e g h = rw h
  remember_look s k j (some c, b) e g h = elim (Bool-cases (k == j)) [
    | inl same ↦
        let kj : k ≡ j = (==_iff k j).0 same in
        rw (lookup-insert k j c s.cache_coins, same, ← kj, e) g
    | inr other ↦ rw (lookup-insert k j c s.cache_coins, other, h)
  ]

  fetch_look : (s : ViewCache S) (k j : ℕ) → look (fetch_coins v s k).1 j ≡ look s j
  unfolding fetch_coins look best
  fetch_look s k j = elim (Option-cases (lookup k s.cache_coins)) [
    | inl e ↦
        rw (e, fetch_coins)
          (remember_look s k j (v.get_coins s.base k) e (l.get_result s.base k)
            (l.get_look s.base k j))
    | inr (c, e) ↦ rw (e, fetch_coins)
  ]

  fetch_best : (s : ViewCache S) (k : ℕ) → best (fetch_coins v s k).1 ≡ best s
  unfolding fetch_coins look best
  fetch_best s k = ground (arith, l.get_best s.base k)

  -- A cache keeps the contract of a view, if the view behind it does.
  pub cache_view-IsCoinsView : IsCoinsView (cache_view v)
  unfolding look best have_coins set_coins get_best_block set_best_block batch_write
  cache_view-IsCoinsView = record {
    look = look;
    best = best;
    get_result = fetch_result;
    get_look = fetch_look;
    get_best = fetch_best;
    have_result = λ s k. ap is_some (fetch_result s k);
    have_look = fetch_look;
    have_best = fetch_best;
    set_look = λ s k j c. ground (arith, lookup-insert k j c s.cache_coins);
    set_best = λ s k c. refl;
    best_result = λ s. ground (arith, l.best_result s.base);
    best_look = λ s j. ground (arith, l.best_look s.base j);
    best_best = λ s. ground (arith, l.best_result s.base, l.best_best s.base);
    move_look = λ s h j. refl;
    move_best = λ s h. ground arith;
    write_look = λ s m h j. ground (arith, lookup-write_all j m s.cache_coins);
    write_best = λ s m h. ground arith;
  }

  remember-Ascending :
      (s : ViewCache S) (k : ℕ) (r : Option Coins × S)
      → Ascending s.cache_coins
      → Ascending (remember v s k r).1.cache_coins
  remember-Ascending s k (none, b) h = h
  remember-Ascending s k (some c, b) h = insert-Ascending k c s.cache_coins h

  fetch-Ascending :
      (s : ViewCache S) (k : ℕ)
      → Ascending s.cache_coins
      → Ascending (fetch_coins v s k).1.cache_coins
  unfolding fetch_coins
  fetch-Ascending s k h = elim (Option-cases (lookup k s.cache_coins)) [
    | inl e ↦ rw (e, fetch_coins) (remember-Ascending s k (v.get_coins s.base k) h)
    | inr (c, e) ↦ rw (e, fetch_coins) h
  ]

  write_all-Ascending :
      (m cache : List (ℕ × Coins)) → Ascending cache → Ascending (write_all m cache)
  unfolding write_all
  write_all-Ascending [] cache h = h
  write_all-Ascending ((k, c) ∷ m) cache h =
      write_all-Ascending m (insert k c cache) (insert-Ascending k c cache h)

  -- Every operation keeps the keys of the map in rising order, each at most once.
  pub operations-Ascending :
      (s : ViewCache S) (k h : ℕ) (c : Coins) (m : List (ℕ × Coins))
      → Ascending s.cache_coins
      → Ascending (fetch_coins v s k).1.cache_coins
        × Ascending (have_coins v s k).1.cache_coins
        × Ascending (set_coins v s k c).1.cache_coins
        × Ascending (get_best_block v s).1.cache_coins
        × Ascending (set_best_block v s h).1.cache_coins
        × Ascending (batch_write v s m h).1.cache_coins
        × Ascending (flush v s).1.cache_coins
  unfolding have_coins set_coins get_best_block set_best_block batch_write flush
  operations-Ascending s k h c m a = (
    fetch-Ascending s k a,
    fetch-Ascending s k a,
    insert-Ascending k c s.cache_coins a,
    ground arith,
    a,
    write_all-Ascending m s.cache_coins a,
    ground arith,
  )

  -- A successful Flush empties the cache, hands all its coins and its best block on to the base, and
  -- so changes nothing of what the cache shows.
  pub flush_look :
      (s : ViewCache S) (k : ℕ)
      → Ascending s.cache_coins
      → (flush v s).0 ≡ true
      → ((flush v s).1.cache_coins ≡ [])
        × (look (flush v s).1 k ≡ look s k)
        × (l.look (flush v s).1.base k ≡ look s k)
  unfolding flush lookup look
  flush_look s k h e =
      ground (
        arith,
        l.write_look s.base s.cache_coins s.hash_block k,
        last_value-lookup k s.cache_coins h,
      )

  -- The same in the form in which calls of the cache are rewritten.
  pub fetch_pair : (s : ViewCache S) (k : ℕ) → fetch_coins v s k ≡ (look s k, (fetch_coins v s k).1)
  fetch_pair s k = λ i. (fetch_result s k i, (fetch_coins v s k).1)

  pub fetch_same : (s : ViewCache S) (k : ℕ) → look (fetch_coins v s k).1 ≡ look s
  fetch_same s k = fun_ext (fetch_look s k)

  pub have_pair :
      (s : ViewCache S) (k : ℕ) → have_coins v s k ≡ (is_some (look s k), (fetch_coins v s k).1)
  unfolding have_coins
  have_pair s k = λ i. (is_some (fetch_result s k i), (fetch_coins v s k).1)

  pub set_same :
      (s : ViewCache S) (k : ℕ) (c : Coins)
      → look (set_coins v s k c).1 ≡ (λ j. if k == j then some c else look s j)
  unfolding set_coins look
  set_same s k c = fun_ext (λ j. ground (arith, lookup-insert k j c s.cache_coins))
