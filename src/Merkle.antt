-- ===== src/Merkle.antt =====
-- The Merkle tree of a block: BuildMerkleTree, GetMerkleBranch and CheckMerkleBranch of core.cpp.
-- `none` is a read behind the end of vMerkleTree.
pub mod Positions
pub mod Laws
pub mod Partial
use Prim.Native.Nat.{min, bit_and, bit_xor}
use darcoin.Common.{
  ℕ, zero, suc, ◌+◌, ◌-◌, ◌/◌, Option, none, some, List, [], ◌∷◌, ◌++◌, ℤ, pos, negsuc, ltb, ◌==◌,
  if◌then◌else◌, length, get_elem?,
}

-- A block, as far as its tree goes: the hashes of vtx, and vMerkleTree.
pub record MerkleBlock : Type 0 where
  pub tx_hashes : List ℕ
  pub merkle_tree : List ℕ

abbrev pub with_node {ℓ} : {A : Type ℓ} → Option ℕ → (ℕ → Option A) → Option A
with_node none f = none
with_node (some x) f = f x

abbrev pub with_tree {ℓ} : {A : Type ℓ} → Option (List ℕ) → (List ℕ → Option A) → Option A
with_tree none f = none
with_tree (some t) f = f t

-- vMerkleTree.empty() ? 0 : vMerkleTree.back()
abbrev pub back : List ℕ → ℕ
back [] = 0
back (x ∷ []) = x
back (x ∷ y ∷ r) = back (y ∷ r)

-- nIndex & 1 and nIndex >> 1 on an int in two's complement.
abbrev pub low_bit : ℤ → ℕ
low_bit (pos i) = bit_and i 1
low_bit (negsuc k) = 1 - bit_and k 1

abbrev pub half_index : ℤ → ℤ
half_index (pos i) = pos (i / 2)
half_index (negsuc k) = negsuc (k / 2)

-- Hash(BEGIN(a), END(a), BEGIN(b), END(b)) of hash.h is the argument `join a b`.
module _ (join : ℕ → ℕ → ℕ) where
  -- The loop over i in BuildMerkleTree; i grows in each round, so that nSize + 1 tests are enough.
  unfoldable pub pair_loop : ℕ → List ℕ → ℕ → ℕ → ℕ → Option (List ℕ)
  pair_loop zero tree j i size = none
  pair_loop (suc fuel) tree j i size =
      let left = get_elem? tree (j + i) in
      let right = get_elem? tree (j + min (i + 1) (size - 1)) in
      let round =
        with_node left
          (λ a. with_node right (λ b. pair_loop fuel (tree ++ join a b ∷ []) j (i + 2) size)) in
      if ltb i size then round else some tree

  -- The loop over nSize, which falls in each round.
  unfoldable pub level_loop : ℕ → List ℕ → ℕ → ℕ → Option (List ℕ)
  unfolding pair_loop
  level_loop zero tree j size = some tree
  level_loop (suc fuel) tree j size =
      let rest =
        with_tree (pair_loop (size + 1) tree j 0 size)
          (λ tree'. level_loop fuel tree' (j + size) ((size + 1) / 2)) in
      if ltb 1 size then rest else some tree

  abbrev pub built : MerkleBlock → Option (List ℕ) → Option (ℕ × MerkleBlock)
  built b none = none
  built b (some tree) = some (back tree, record b { merkle_tree = tree })

  -- BuildMerkleTree
  unfoldable pub build_merkle_tree : MerkleBlock → Option (ℕ × MerkleBlock)
  unfolding level_loop
  build_merkle_tree b = built b (level_loop (length b.tx_hashes) b.tx_hashes 0 (length b.tx_hashes))

  abbrev pub prepend_node : ℕ → Option (List ℕ) → Option (List ℕ)
  prepend_node x none = none
  prepend_node x (some branch) = some (x ∷ branch)

  -- The loop of GetMerkleBranch.
  pub branch_loop : ℕ → List ℕ → ℕ → ℕ → ℕ → Option (List ℕ)
  branch_loop zero tree j size index = some []
  branch_loop (suc fuel) tree j size index =
      let rest = branch_loop fuel tree (j + size) ((size + 1) / 2) (index / 2) in
      let other = get_elem? tree (j + min (bit_xor index 1) (size - 1)) in
      if ltb 1 size then with_node other (λ x. prepend_node x rest) else some []

  abbrev pub branch_of : ℕ → Option (ℕ × MerkleBlock) → Option (List ℕ × MerkleBlock)
  branch_of index none = none
  branch_of index (some (root, b)) =
      with_tree (branch_loop (length b.tx_hashes) b.merkle_tree 0 (length b.tx_hashes) index)
        (λ branch. some (branch, b))

  pub ensure_built : List ℕ → MerkleBlock → Option (ℕ × MerkleBlock)
  unfolding build_merkle_tree
  ensure_built [] b = build_merkle_tree b
  ensure_built (x ∷ r) b = some (0, b)

  -- GetMerkleBranch, for an index that is not negative.
  pub get_merkle_branch : MerkleBlock → ℕ → Option (List ℕ × MerkleBlock)
  unfolding branch_loop
  get_merkle_branch b index = branch_of index (ensure_built b.merkle_tree b)

  -- The loop of CheckMerkleBranch.
  pub check_loop : ℕ → List ℕ → ℤ → ℕ
  check_loop h [] index = h
  check_loop h (x ∷ branch) index =
      let h' = if low_bit index == 0 then join h x else join x h in
      check_loop h' branch (half_index index)

  -- CheckMerkleBranch
  pub check_merkle_branch : ℕ → List ℕ → ℤ → ℕ
  unfolding check_loop
  check_merkle_branch h branch (negsuc zero) = 0
  check_merkle_branch h branch (negsuc (suc k)) = check_loop h branch (negsuc (suc k))
  check_merkle_branch h branch (pos i) = check_loop h branch (pos i)
