-- ===== src/View.antt =====
-- CCoinsView of coins.h, the interface that the coin databases and caches share, and its contract.
pub mod Base
pub mod Cache
pub mod Inputs
use darcoin.Common.{
  ℕ, ◌≡◌, ◌⊎◌, Bool, true, false, ◌&&◌, Option, some, none, List, ◌==◌, if◌then◌else◌, or_else,
  last_value,
}
use darcoin.Coins.{Coins}

-- The virtual methods, over the type of the objects; a method that may change its object returns it.
pub record CoinsView (S : Type 0) : Type 0 where
  pub get_coins : S → ℕ → Option Coins × S
  pub set_coins : S → ℕ → Coins → Bool × S
  pub have_coins : S → ℕ → Bool × S
  pub get_best_block : S → ℕ × S
  pub set_best_block : S → ℕ → Bool × S
  pub batch_write : S → List (ℕ × Coins) → ℕ → Bool × S

abbrev pub is_some : Option Coins → Bool
is_some none = false
is_some (some c) = true

-- What an object of the class promises: it holds a map of coins and a best block; reads do not change
-- them, and a write that returns true changes what it names. Block hash 0 stands for "not known".
pub record IsCoinsView {S : Type 0} (v : CoinsView S) : Type 0 where
  pub look : S → ℕ → Option Coins
  pub best : S → ℕ
  pub get_result : (s : S) (k : ℕ) → (v.get_coins s k).0 ≡ look s k
  pub get_look : (s : S) (k j : ℕ) → look (v.get_coins s k).1 j ≡ look s j
  pub get_best : (s : S) (k : ℕ) → best (v.get_coins s k).1 ≡ best s
  pub have_result : (s : S) (k : ℕ) → (v.have_coins s k).0 ≡ is_some (look s k)
  pub have_look : (s : S) (k j : ℕ) → look (v.have_coins s k).1 j ≡ look s j
  pub have_best : (s : S) (k : ℕ) → best (v.have_coins s k).1 ≡ best s
  pub set_look :
      (s : S) (k j : ℕ) (c : Coins)
      → look (v.set_coins s k c).1 j
        ≡ (if (v.set_coins s k c).0 && k == j then some c else look s j)
  pub set_best : (s : S) (k : ℕ) (c : Coins) → best (v.set_coins s k c).1 ≡ best s
  pub best_result : (s : S) → (v.get_best_block s).0 ≡ best s
  pub best_look : (s : S) (j : ℕ) → look (v.get_best_block s).1 j ≡ look s j
  pub best_best : (s : S) → best (v.get_best_block s).1 ≡ best s
  pub move_look : (s : S) (h j : ℕ) → look (v.set_best_block s h).1 j ≡ look s j
  pub move_best :
      (s : S) (h : ℕ)
      → (h ≡ 0) ⊎ (best (v.set_best_block s h).1 ≡ (if (v.set_best_block s h).0 then h else best s))
  pub write_look :
      (s : S) (m : List (ℕ × Coins)) (h j : ℕ)
      → look (v.batch_write s m h).1 j
        ≡ (if (v.batch_write s m h).0 then or_else (last_value j m) (look s j) else look s j)
  pub write_best :
      (s : S) (m : List (ℕ × Coins)) (h : ℕ)
      → (h ≡ 0) ⊎ (best (v.batch_write s m h).1 ≡ (if (v.batch_write s m h).0 then h else best s))
