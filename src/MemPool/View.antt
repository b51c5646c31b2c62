-- ===== src/MemPool/View.antt =====
-- CCoinsViewMemPool (txmempool.h, txmempool.cpp): the coins of a view with the transactions of a pool.
use darcoin.Common.{
  ℕ, ◌≡◌, ◌∙◌, refl, ap, Bool, true, false, ◌||◌, Option, none, some, if◌then◌else◌, lookup,
  or_else, last_value,
}
use darcoin.Coins.{Coins, coins_of}
use darcoin.Tx.{Transaction}
use darcoin.View.{CoinsView, IsCoinsView, is_some}
use darcoin.MemPool.{Entry, MemPool, has_entry, exists, tx_of, lookup_tx}

-- MEMPOOL_HEIGHT
abbrev pub mempool_height : ℕ
mempool_height = 2147483647

-- CCoins(tx, MEMPOOL_HEIGHT) of the transaction that is found
abbrev pub coins_at : Option Transaction → Option Coins
coins_at none = none
coins_at (some tx) = some (coins_of tx mempool_height)

abbrev pub coins_in : MemPool → ℕ → Option Coins
coins_in p k = coins_at (lookup_tx p k)

-- The right side of || is called only where the left one is false.
abbrev pub unless_true : {S : Type 0} → Bool → S × MemPool → Bool × S → Bool × (S × MemPool)
unless_true true x r = (true, x)
unless_true false x r = (r.0, (r.1, x.1))

or_else_if :
    (b : Bool) (d : Coins) (y z : Option Coins)
    → or_else (if b then some d else y) z ≡ (if b then some d else or_else y z)
or_else_if true d y z = refl
or_else_if false d y z = refl

or_else_written :
    (b : Bool) (w y z : Option Coins)
    → or_else (if b then or_else w y else y) z
      ≡ (if b then or_else w (or_else y z) else or_else y z)
or_else_written false w y z = refl
or_else_written true none y z = refl
or_else_written true (some c) y z = refl

is_some-or_else :
    (o : Option Entry) (l : Option Coins) (b : Bool)
    → b ≡ is_some l
    → (has_entry o || b) ≡ is_some (or_else l (coins_at (tx_of o)))
is_some-or_else none none b e = e
is_some-or_else none (some c) b e = e
is_some-or_else (some g) none b e = refl
is_some-or_else (some g) (some c) b e = refl

module _ {S : Type 0} (v : CoinsView S) where
  -- GetCoins
  abbrev pub get_coins : S × MemPool → ℕ → Option Coins × (S × MemPool)
  get_coins (s, p) k = let r = v.get_coins s k in (or_else r.0 (coins_in p k), (r.1, p))

  -- HaveCoins
  abbrev pub have_coins : S × MemPool → ℕ → Bool × (S × MemPool)
  have_coins x k = unless_true (exists x.1 k) x (v.have_coins x.0 k)

  -- The class: what it does not define itself is passed on to the base by CCoinsViewBacked.
  abbrev pub mempool_view : CoinsView (S × MemPool)
  mempool_view = record {
    get_coins = get_coins;
    set_coins = λ x k c. let r = v.set_coins x.0 k c in (r.0, (r.1, x.1));
    have_coins = have_coins;
    get_best_block = λ x. let r = v.get_best_block x.0 in (r.0, (r.1, x.1));
    set_best_block = λ x h. let r = v.set_best_block x.0 h in (r.0, (r.1, x.1));
    batch_write = λ x m h. let r = v.batch_write x.0 m h in (r.0, (r.1, x.1));
  }

  unless_true_result :
      (b : Bool) (x : S × MemPool) (r : Bool × S) → (unless_true b x r).0 ≡ (b || r.0)
  unless_true_result true x r = refl
  unless_true_result false x r = refl

  unless_true_best :
      (b : Bool) (x : S × MemPool) (r : Bool × S) (best : S → ℕ)
      → best r.1 ≡ best x.0
      → best ((unless_true b x r).1.0) ≡ best x.0
  unless_true_best true x r best e = refl
  unless_true_best false x r best e = e

  unless_true_look :
      (b : Bool) (x : S × MemPool) (r : Bool × S) (j : ℕ) (look : S → Option Coins)
      → look r.1 ≡ look x.0
      → or_else (look ((unless_true b x r).1.0)) (coins_in ((unless_true b x r).1.1) j)
        ≡ or_else (look x.0) (coins_in x.1 j)
  unless_true_look true x r j look e = refl
  unless_true_look false x r j look e = rw e refl

  shown : IsCoinsView v → IsCoinsView mempool_view
  shown c = record {
    look = λ x k. or_else (c.look x.0 k) (coins_in x.1 k);
    best = λ x. c.best x.0;
    get_result = λ x k. rw (c.get_result x.0 k) refl;
    get_look = λ x k j. rw (c.get_look x.0 k j) refl;
    get_best = λ x k. c.get_best x.0 k;
    have_result = λ x k.
        unless_true_result (exists x.1 k) x (v.have_coins x.0 k)
        ∙ is_some-or_else (lookup k x.1.map_tx) (c.look x.0 k) _ (c.have_result x.0 k);
    have_look = λ x k j.
        unless_true_look (exists x.1 k) x (v.have_coins x.0 k) j (λ s. c.look s j)
          (c.have_look x.0 k j);
    have_best =
        λ x k. unless_true_best (exists x.1 k) x (v.have_coins x.0 k) c.best (c.have_best x.0 k);
    set_look = λ x k j d.
        ap (λ o. or_else o (coins_in x.1 j)) (c.set_look x.0 k j d)
        ∙ or_else_if _ d (c.look x.0 j) (coins_in x.1 j);
    set_best = λ x k d. c.set_best x.0 k d;
    best_result = λ x. c.best_result x.0;
    best_look = λ x j. rw (c.best_look x.0 j) refl;
    best_best = λ x. c.best_best x.0;
    move_look = λ x h j. rw (c.move_look x.0 h j) refl;
    move_best = λ x h. c.move_best x.0 h;
    write_look = λ x m h j.
        ap (λ o. or_else o (coins_in x.1 j)) (c.write_look x.0 m h j)
        ∙ or_else_written _ (last_value j m) (c.look x.0 j) (coins_in x.1 j);
    write_best = λ x m h. c.write_best x.0 m h;
  }

  -- CCoinsViewMemPool meets the contract of a coins view where its base does. It shows what the
  -- base shows; where the base shows nothing for a hash and the pool has an entry for it, it shows
  -- the coins that the transaction of the entry creates, at the height 0x7FFFFFFF; where neither
  -- has one, it shows nothing. Its best block is that of the base.
  pub mempool_view-IsCoinsView :
      (c : IsCoinsView v)
      → (d : IsCoinsView mempool_view) × ((s : S) (p : MemPool)
          → (d.best (s, p) ≡ c.best s)
            × ((k : ℕ)
                → ((b : Coins) → c.look s k ≡ some b → d.look (s, p) k ≡ some b)
                  × ((e : Entry)
                      → c.look s k ≡ none
                      → lookup k p.map_tx ≡ some e
                      → d.look (s, p) k ≡ some (coins_of e.tx 0x7FFFFFFF))
                  × (c.look s k ≡ none → lookup k p.map_tx ≡ none → d.look (s, p) k ≡ none)))
  unfolding shown
  mempool_view-IsCoinsView c = (
    shown c,
    λ s p. (refl, λ k. ((λ b e. rw e refl), (λ g e l. rw (e, l) refl), (λ e l. rw (e, l) refl))),
  )
