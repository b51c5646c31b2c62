-- ===== src/View/Cache.antt =====
-- CCoinsViewCache of coins.h and coins.cpp: a map of coins in front of another view.
pub mod Contract
use darcoin.Common.{
  ℕ, Bool, true, false, Option, none, some, List, [], ◌∷◌, ◌==◌, if◌then◌else◌, length, lookup,
  insert,
}
use darcoin.Coins.{Coins}
use darcoin.View.{CoinsView, is_some}

pub record ViewCache (S : Type 0) : Type 0 where
  pub base : S
  pub hash_block : ℕ
  pub cache_coins : List (ℕ × Coins)

-- CCoinsViewCache(baseIn)
abbrev pub new_cache : {S : Type 0} → S → ViewCache S
new_cache base = record { base = base; hash_block = 0; cache_coins = [] }

-- The loop of BatchWrite.
pub write_all : List (ℕ × Coins) → List (ℕ × Coins) → List (ℕ × Coins)
write_all [] cache = cache
write_all ((k, c) ∷ m) cache = write_all m (insert k c cache)

module _ {S : Type 0} (v : CoinsView S) where
  -- The result of a read from the base, which is kept.
  abbrev pub remember : ViewCache S → ℕ → Option Coins × S → Option Coins × ViewCache S
  remember s k (none, b) = (none, record s { base = b })
  remember s k (some c, b) = (some c, record s { base = b; cache_coins = insert k c s.cache_coins })

  -- FetchCoins: the coins in the cache after the call, or none where it returns end(). Also
  -- GetCoins(txid, coins), which differs from it in how it copies the result.
  pub fetch_coins : ViewCache S → ℕ → Option Coins × ViewCache S
  fetch_coins s k = elim (lookup k s.cache_coins) [
    | some c ↦ (some c, s)
    | none ↦ remember s k (v.get_coins s.base k)
  ]

  -- SetCoins
  pub set_coins : ViewCache S → ℕ → Coins → Bool × ViewCache S
  set_coins s k c = (true, record s { cache_coins = insert k c s.cache_coins })

  -- HaveCoins
  pub have_coins : ViewCache S → ℕ → Bool × ViewCache S
  have_coins s k = let r = fetch_coins s k in (is_some r.0, r.1)

  -- GetBestBlock
  pub get_best_block : ViewCache S → ℕ × ViewCache S
  get_best_block s =
      let r = v.get_best_block s.base in
      if s.hash_block == 0
      then (r.0, record s { base = r.1; hash_block = r.0 })
      else (s.hash_block, s)

  -- SetBestBlock
  pub set_best_block : ViewCache S → ℕ → Bool × ViewCache S
  set_best_block s h = (true, record s { hash_block = h })

  -- BatchWrite
  unfoldable pub batch_write : ViewCache S → List (ℕ × Coins) → ℕ → Bool × ViewCache S
  unfolding write_all
  batch_write s m h = (true, record s { hash_block = h; cache_coins = write_all m s.cache_coins })

  -- Flush
  unfoldable pub flush : ViewCache S → Bool × ViewCache S
  flush s =
      let r = v.batch_write s.base s.cache_coins s.hash_block in
      if r.0
      then (r.0, record s { base = r.1; cache_coins = [] })
      else (r.0, record s { base = r.1 })

  -- GetCacheSize
  pub get_cache_size : ViewCache S → ℕ
  get_cache_size s = length s.cache_coins

  -- The class: a cache is a view in its turn.
  abbrev pub cache_view : CoinsView (ViewCache S)
  cache_view = record {
    get_coins = fetch_coins;
    set_coins = set_coins;
    have_coins = have_coins;
    get_best_block = get_best_block;
    set_best_block = set_best_block;
    batch_write = batch_write;
  }
