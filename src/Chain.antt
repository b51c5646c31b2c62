-- ===== src/Chain.antt =====
-- CChain of main.h and main.cpp, and the fields of CBlockIndex that it reads. A CBlockIndex* is a
-- number or, where it is NULL, `none`; what it points to is given by a function.
pub mod Tip
pub mod Locator
use darcoin.Common.{
  ℕ, zero, suc, ◌+◌, ◌-◌, ◌*◌, Bool, true, false, not, ◌&&◌, lookup, ltb, Option, none, some, List,
  [], ◌∷◌, ◌==◌, if◌then◌else◌, length, get_elem?, set,
}

pub record BlockIndex : Type 0 where
  pub pprev : Option ℕ
  pub height : ℕ

-- vChain, whose elements may be NULL after a resize.
abbrev pub Chain : Type 0
Chain = List (Option ℕ)

-- operator[]
abbrev pub entry : Option (Option ℕ) → Option ℕ
entry none = none
entry (some p) = p

abbrev pub block_at : Chain → ℕ → Option ℕ
block_at c h = entry (get_elem? c h)

-- Tip
abbrev pub tip : Chain → Option ℕ
tip c = if length c == 0 then none else block_at c (length c - 1)

abbrev pub is_block : Option ℕ → ℕ → Bool
is_block none p = false
is_block (some q) p = q == p

-- Contains
abbrev pub contains : (ℕ → BlockIndex) → Chain → ℕ → Bool
contains blocks c p = is_block (block_at c ((blocks p).height)) p

-- vChain.resize
unfoldable pub resize : ℕ → Chain → Chain
resize zero c = []
resize (suc n) [] = none ∷ resize n []
resize (suc n) (p ∷ c) = p ∷ resize n c

-- The loop of SetTip: the pointer that it ends with, and the chain. The height falls with each
-- round, so that one more than the height is rounds enough.
unfoldable pub set_tip_loop : (ℕ → BlockIndex) → ℕ → Option ℕ → Chain → Option ℕ × Chain
set_tip_loop blocks fuel none c = (none, c)
set_tip_loop blocks zero (some p) c = (some p, c)
set_tip_loop blocks (suc fuel) (some p) c =
    let rest = set_tip_loop blocks fuel ((blocks p).pprev) (set c ((blocks p).height) (some p)) in
    if contains blocks c p then (some p, c) else rest

-- SetTip
unfoldable pub set_tip : (ℕ → BlockIndex) → Option ℕ → Chain → Option ℕ × Chain
set_tip blocks none c = (none, [])
set_tip blocks (some p) c =
    set_tip_loop blocks ((blocks p).height + 1) (some p) (resize ((blocks p).height + 1) c)

-- Genesis
abbrev pub genesis : Chain → Option ℕ
genesis c = block_at c 0

-- pindex = pindex->pprev, and on from there
abbrev pub at_parent : Option ℕ → (ℕ → Option ℕ) → Option ℕ
at_parent none f = none
at_parent (some q) f = f q

-- The inner loop of GetLocator; `none` is a pprev that is NULL, or the end of the fuel. The height
-- falls with each round, so that one more than the height is fuel enough.
unfoldable pub walk_back : (ℕ → BlockIndex) → Chain → ℕ → ℕ → ℕ → Option ℕ
walk_back blocks c target zero p = none
walk_back blocks c target (suc fuel) p =
    let rest = at_parent ((blocks p).pprev) (walk_back blocks c target fuel) in
    if ltb target ((blocks p).height) && not (contains blocks c p) then rest else some p

-- The step to the chain itself: (*this)[nHeight]
abbrev pub jump : (ℕ → BlockIndex) → Chain → ℕ → ℕ → Option ℕ
jump blocks c target p = if ltb target ((blocks p).height) then block_at c target else some p

abbrev pub push : ℕ → Option (List ℕ) → Option (List ℕ)
push x none = none
push x (some have) = some (x ∷ have)

-- Where the inner loop ended, and what goes on from there.
abbrev pub go_on : Option ℕ → (ℕ → Option (List ℕ)) → Option (List ℕ)
go_on none f = none
go_on (some p) f = f p

-- A pointer that is NULL ends the outer loop.
abbrev pub while_block : Option ℕ → (ℕ → Option (List ℕ)) → Option (List ℕ)
while_block none f = some []
while_block (some p) f = f p

-- The outer loop of GetLocator, with `count` hashes before; `none` is as for the inner loop, and here
-- too the height falls with each round.
unfoldable pub locator_loop : (ℕ → BlockIndex) → (ℕ → ℕ) → Chain → ℕ → ℕ → ℕ → ℕ → Option (List ℕ)
unfolding walk_back
locator_loop blocks hash c zero p step count = none
locator_loop blocks hash c (suc fuel) p step count =
    let target = (blocks p).height - step in
    let step' = if ltb 10 (count + 1) then step * 2 else step in
    let rest = go_on (walk_back blocks c target ((blocks p).height + 1) p) (λ q.
      while_block (jump blocks c target q)
        (λ r. locator_loop blocks hash c fuel r step' (count + 1))) in
    if (blocks p).height == 0 then some (hash p ∷ []) else push (hash p) rest

-- `if (!pindex) pindex = Tip()`
abbrev pub or_tip : Chain → Option ℕ → Option ℕ
or_tip c none = tip c
or_tip c (some p) = some p

-- GetLocator. GetBlockHash is the argument `hash`.
unfoldable pub get_locator : (ℕ → BlockIndex) → (ℕ → ℕ) → Chain → Option ℕ → Option (List ℕ)
unfolding locator_loop
get_locator blocks hash c p =
    while_block (or_tip c p) (λ q. locator_loop blocks hash c ((blocks q).height + 1) q 1 0)

-- The block that mapBlockIndex has for a hash, where the chain contains it.
abbrev pub fork_or : (ℕ → BlockIndex) → Chain → Option ℕ → Option ℕ → Option ℕ
fork_or blocks c none rest = rest
fork_or blocks c (some q) rest = if contains blocks c q then some q else rest

-- FindFork; `index` is mapBlockIndex.
unfoldable pub find_fork : (ℕ → BlockIndex) → List (ℕ × ℕ) → Chain → List ℕ → Option ℕ
find_fork blocks index c [] = genesis c
find_fork blocks index c (x ∷ have) =
    fork_or blocks c (lookup x index) (find_fork blocks index c have)
