-- ===== src/Tests/Chains.antt =====
-- A chain of two blocks that grows by two, and the fork that it has with a longer one.
use mathlib.Core.Option.{some-injective}
use darcoin.Common.{
  ◌+◌, List, map, true, lookup, ap, sym, ◌∙◌, ℕ, zero, suc, ◌≡◌, refl, some, none, [], ◌∷◌, length,
  arith,
}
use darcoin.Chain.{BlockIndex, Chain, contains, tip, set_tip, get_locator, find_fork}
use darcoin.Chain.Locator
use darcoin.Chain.Locator.{IsIndex, find_fork-get_locator}
use darcoin.Chain.Tip.{IsTree, IsChain, IsFork, set_tip-IsChain}

-- Blocks 0, 1, 2, and so on stand one on the other.
abbrev blocks : ℕ → BlockIndex
blocks zero = record { pprev = none; height = 0 }
blocks (suc n) = record { pprev = some n; height = suc n }

abbrev active : Chain
active = some 0 ∷ some 1 ∷ []

height_lem : (n : ℕ) → (blocks n).height ≡ n
height_lem zero = refl
height_lem (suc n) = refl

block_parent : (p q : ℕ) → (blocks p).pprev ≡ some q → (blocks p).height ≡ suc ((blocks q).height)
block_parent zero q e = cc
block_parent (suc n) q e = ap suc (some-injective n q e ∙ sym (height_lem q))

block_root : (p : ℕ) → (blocks p).pprev ≡ none → (blocks p).height ≡ 0
block_root zero e = refl
block_root (suc n) e = cc

blocks-IsTree : IsTree blocks
blocks-IsTree = record { parent = block_parent; root = block_root }

active-IsChain : IsChain blocks active
active-IsChain zero l = (0, refl, refl, refl)
active-IsChain (suc zero) l = (1, refl, refl, refl)
active-IsChain (suc (suc h)) l = absurd (omega (arith, l))

set_tip-IsChain_example :
    IsChain blocks ((set_tip blocks (some 3) active).1)
    × (length ((set_tip blocks (some 3) active).1) ≡ 4)
    × (tip ((set_tip blocks (some 3) active).1) ≡ some 3)
    × IsFork blocks active ((set_tip blocks (some 3) active).1) ((set_tip blocks (some 3) active).0)
set_tip-IsChain_example = set_tip-IsChain blocks active 3 blocks-IsTree active-IsChain

abbrev longer : Chain
longer = some 0 ∷ some 1 ∷ some 2 ∷ some 3 ∷ []

longer-IsChain : IsChain blocks longer
longer-IsChain zero l = (0, refl, refl, refl)
longer-IsChain (suc zero) l = (1, refl, refl, refl)
longer-IsChain (suc (suc zero)) l = (2, refl, refl, refl)
longer-IsChain (suc (suc (suc zero))) l = (3, refl, refl, refl)
longer-IsChain (suc (suc (suc (suc h)))) l = absurd (omega (arith, l))

abbrev hash : ℕ → ℕ
hash n = n + 100

abbrev index : List (ℕ × ℕ)
index = (100, 0) ∷ (101, 1) ∷ []

index-right : (q r : ℕ) → lookup (hash q) index ≡ some r → r ≡ q
unfolding lookup
index-right q r e = ground (arith, e)

index-has_chain : (q : ℕ) → contains blocks active q ≡ true → lookup (hash q) index ≡ some q
unfolding lookup
index-has_chain zero e = refl
index-has_chain (suc zero) e = refl
index-has_chain (suc (suc q)) e = absurd (ground (arith, e))

one_genesis : (a b : ℕ) → (blocks a).height ≡ 0 → (blocks b).height ≡ 0 → a ≡ b
one_genesis a b e f = sym (height_lem a) ∙ e ∙ sym f ∙ height_lem b

find_fork-get_locator_example :
    (qs : List ℕ) × (get_locator blocks hash longer (some 3) ≡ some (map hash qs))
    × Locator.Descent blocks 0 3 qs
    × Locator.IsFork blocks blocks-IsTree hash active 3
        (find_fork blocks index active (map hash qs))
    × (contains blocks active 3 ≡ true → find_fork blocks index active (map hash qs) ≡ some 3)
find_fork-get_locator_example =
    find_fork-get_locator blocks blocks-IsTree hash longer active index 3 longer-IsChain
      active-IsChain (omega arith) one_genesis
      (record { right = index-right; has_chain = index-has_chain })

found_fork : find_fork blocks index active (103 ∷ 102 ∷ 101 ∷ 100 ∷ []) ≡ some 1
unfolding find_fork lookup
found_fork = refl
