-- ===== src/Tests/Blocks.antt =====
-- The Merkle tree of a block of three transactions, and a partial one with its second transaction.
use darcoin.Common.{
  ℕ, ◌+◌, ◌*◌, ◌≡◌, ◌⊎◌, refl, Bool, true, false, some, List, [], ◌∷◌, ◌++◌, get_elem?, All, pos,
  arith,
}
use darcoin.Merkle.{MerkleBlock, build_merkle_tree, get_merkle_branch, check_merkle_branch}
use darcoin.Merkle.Laws.{check-get_merkle_branch}
use darcoin.Merkle.Partial.{PartialTree, tree_height, partial_tree, extract_matches}
use darcoin.Merkle.Partial.Leaves.{chosen}
use darcoin.Merkle.Partial.Soundness.{Collision}
use darcoin.Merkle.Partial.Block.{extract_matches-build_merkle_tree, extract_matches-in_block}

abbrev join : ℕ → ℕ → ℕ
join a b = 1000 * a + b

abbrev three : MerkleBlock
three = record { tx_hashes = 11 ∷ 12 ∷ 13 ∷ []; merkle_tree = [] }

check-get_merkle_branch_example :
    (root : ℕ) × (branch : List ℕ) × (b' : MerkleBlock) × (build_merkle_tree join three
      ≡ some (root, b'))
    × (get_merkle_branch join b' 2 ≡ some (branch, b'))
    × (check_merkle_branch join 13 branch (pos 2) ≡ root)
check-get_merkle_branch_example = check-get_merkle_branch join three 2 13 refl

abbrev marks : List Bool
marks = false ∷ true ∷ false ∷ []

-- What the partial tree is padded with to a byte.
abbrev filler : List Bool
filler = false ∷ false ∷ false ∷ []

abbrev second : PartialTree
second = record {
  transactions = 3;
  bits = true ∷ true ∷ false ∷ true ∷ false ∷ false ∷ false ∷ false ∷ [];
  hashes = 11 ∷ 12 ∷ join 13 13 ∷ [];
  bad = false;
}

second_made :
    record (partial_tree join (11 ∷ 12 ∷ 13 ∷ []) marks) {
      bits = (partial_tree join (11 ∷ 12 ∷ 13 ∷ []) marks).bits ++ filler;
    }
    ≡ second
unfolding partial_tree tree_height
second_made = refl

extract_matches-build_merkle_tree_example :
    (root : ℕ) × (whole : List ℕ) × (build_merkle_tree join three
      ≡ some (root, record three { merkle_tree = whole }))
    × (extract_matches join (record (partial_tree join three.tx_hashes marks) {
      bits = (partial_tree join three.tx_hashes marks).bits ++ filler;
    })
        ≡ (root, chosen three.tx_hashes marks))
unfolding partial_tree tree_height
extract_matches-build_merkle_tree_example =
    extract_matches-build_merkle_tree join three marks filler refl (omega arith) (omega arith) refl

root_of_three :
    build_merkle_tree join three
    ≡ some (
      join (join 11 12) (join 13 13),
      record three {
        merkle_tree = 11 ∷ 12 ∷ 13 ∷ join 11 12 ∷ join 13 13 ∷ join (join 11 12) (join 13 13) ∷ [];
      },
    )
unfolding build_merkle_tree
root_of_three = refl

matches_of_second : extract_matches join second ≡ (join (join 11 12) (join 13 13), 12 ∷ [])
unfolding extract_matches tree_height
matches_of_second = refl

extract_matches-in_block_example :
    All (λ (m : ℕ). (i : ℕ) × (get_elem? (11 ∷ 12 ∷ 13 ∷ []) i ≡ some m)) (12 ∷ []) ⊎ Collision join
extract_matches-in_block_example =
    extract_matches-in_block join three _ second (join (join 11 12) (join 13 13)) (12 ∷ []) refl
      root_of_three (omega arith) matches_of_second
