-- ===== src/Merkle/Partial/Block.antt =====
-- Partial trees (main.cpp) and the root that a block has (core.cpp).
use darcoin.Common.{
  ℕ, ◌+◌, ◌/◌, ◌≤◌, ◌<◌, ◌≡◌, ◌⊎◌, sym, ap, subst, ◌∙◌, Bool, Option, none, some, List, ◌++◌,
  length, get_elem?, All, arith,
}
use darcoin.Tx.Check.{max_block_size}
use darcoin.Merkle.{MerkleBlock, build_merkle_tree}
use darcoin.Merkle.Partial.{PartialTree, tree_height, calc_hash, partial_tree, extract_matches}
use darcoin.Merkle.Partial.Leaves.{chosen}
use darcoin.Merkle.Partial.Laws.{extract_matches-partial_tree}
use darcoin.Merkle.Partial.Soundness.{Collision, extract_matches-root, extract_matches-IsElement}
use darcoin.Merkle.Partial.Root.{build_merkle_tree-calc_hash}

-- A partial tree that was made of the transactions of a block and their marks, also where its bits
-- are padded within their last byte, gives back the root that BuildMerkleTree computes of the block
-- and the marked transactions in their order. There is a mark for each transaction, and the block
-- has at least one transaction and no more than ExtractMatches accepts.
pub extract_matches-build_merkle_tree :
    (join : ℕ → ℕ → ℕ) (b : MerkleBlock) (marks padding : List Bool)
    → length b.tx_hashes ≡ length marks
    → 0 < length b.tx_hashes
    → length b.tx_hashes ≤ max_block_size / 60
    → (length ((partial_tree join b.tx_hashes marks).bits) + 7) / 8
      ≡ (length ((partial_tree join b.tx_hashes marks).bits ++ padding) + 7) / 8
    → (root : ℕ) × (whole : List ℕ) × (build_merkle_tree join b
        ≡ some (root, record b { merkle_tree = whole }))
      × (extract_matches join (record (partial_tree join b.tx_hashes marks) {
        bits = (partial_tree join b.tx_hashes marks).bits ++ padding;
      })
          ≡ (root, chosen b.tx_hashes marks))
extract_matches-build_merkle_tree join b marks padding e p m w =
    let built = build_merkle_tree-calc_hash join b p m in
    (_, built.0, built.1, extract_matches-partial_tree join b.tx_hashes marks padding e p m w)

abbrev root_or : ℕ → Option (ℕ × MerkleBlock) → ℕ
root_or k none = k
root_or k (some r) = r.0

-- A partial tree that anyone has made, of as many transactions as the block has, for which
-- ExtractMatches gives the root that BuildMerkleTree computes of the block, and this is not 0,
-- which stands for failure, matches nothing but transactions of the block, unless there are two
-- pairs of hashes that have the same hash.
pub extract_matches-in_block :
    (join : ℕ → ℕ → ℕ) (b b' : MerkleBlock) (t : PartialTree) (root : ℕ) (ms : List ℕ)
    → t.transactions ≡ length b.tx_hashes
    → build_merkle_tree join b ≡ some (root, b')
    → 0 < root
    → extract_matches join t ≡ (root, ms)
    → All (λ m. (i : ℕ) × (get_elem? b.tx_hashes i ≡ some m)) ms ⊎ Collision join
extract_matches-in_block join b b' t root ms count built p e =
    let n : ℕ = length b.tx_hashes in
    let behind = extract_matches-root join t root ms e p in
    let computed =
      build_merkle_tree-calc_hash join b (omega (arith, behind.0, count))
        (omega (arith, behind.1, count)) in
    let same : calc_hash join n (tree_height n) 0 b.tx_hashes ≡ root =
      ap (root_or 0) (sym computed.1 ∙ built) in
    extract_matches-IsElement join b.tx_hashes t ms count (subst (λ r. 0 < r) (sym same) p)
      (e ∙ ap (λ r. (r, ms)) (sym same))
