-- ===== src/Merkle/Partial.antt =====
-- CPartialMerkleTree of main.h and main.cpp.
pub mod Width
pub mod Segments
pub mod Leaves
pub mod RoundTrip
pub mod Laws
pub mod Soundness
pub mod Root
pub mod Block
use darcoin.Common.{
  ℕ, zero, suc, ◌+◌, ◌-◌, ◌*◌, ◌/◌, ◌%◌, ◌^◌, Bool, true, false, not, ◌&&◌, ◌||◌, Option, none,
  some, List, [], ◌∷◌, ◌++◌, ltb, ◌==◌, if◌then◌else◌, length, get_elem?,
}
use darcoin.Tx.Check.{max_block_size}

pub record PartialTree : Type 0 where
  pub transactions : ℕ
  pub bits : List Bool
  pub hashes : List ℕ
  pub bad : Bool

-- CalcTreeWidth, on an unsigned int
abbrev pub calc_tree_width : ℕ → ℕ → ℕ
calc_tree_width n height = (n + 2 ^ height - 1) % 2 ^ 32 / 2 ^ height

-- The loop for nHeight, which starts at 0. The width halves with each round, so that 32 are enough.
unfoldable pub height_loop : ℕ → ℕ → ℕ → ℕ
height_loop zero n height = height
height_loop (suc fuel) n height =
    let rest = height_loop fuel n (height + 1) in
    if ltb 1 (calc_tree_width n height) then rest else height

unfoldable pub tree_height : ℕ → ℕ
unfolding height_loop
tree_height n = height_loop 32 n 0

-- vTxid[pos] and vMatch[p]; the positions that are read are below the number of transactions.
abbrev pub or_zero : Option ℕ → ℕ
or_zero none = 0
or_zero (some x) = x

abbrev pub is_set : Option Bool → Bool
is_set none = false
is_set (some b) = b

-- fParentOfMatch |= vMatch[p], for `count` positions from p on.
unfoldable pub match_loop : List Bool → ℕ → ℕ → Bool
match_loop vmatch p zero = false
match_loop vmatch p (suc count) = is_set (get_elem? vmatch p) || match_loop vmatch (p + 1) count

abbrev pub smaller : ℕ → ℕ → ℕ
smaller a b = if ltb a b then a else b

-- fParentOfMatch
abbrev pub parent_of_match : ℕ → List Bool → ℕ → ℕ → Bool
parent_of_match n vmatch height pos =
    let first = pos * 2 ^ height % 2 ^ 32 in
    match_loop vmatch first (smaller ((pos + 1) * 2 ^ height % 2 ^ 32) n - first)

-- What TraverseAndExtract goes through: vBits from nBitsUsed on, vHash from nHashUsed on; vMatch
-- and fBad.
pub record Extraction : Type 0 where
  pub bits : List Bool
  pub hashes : List ℕ
  pub vmatch : List ℕ
  pub bad : Bool

-- The branch that uses a stored hash; `matched` is height == 0 && fParentOfMatch.
abbrev pub take_hash : Bool → List ℕ → Extraction → ℕ × Extraction
take_hash matched [] x = (0, record x { bad = true })
take_hash matched (h ∷ r) x =
    (h, record x { hashes = r; vmatch = if matched then x.vmatch ++ h ∷ [] else x.vmatch })

-- The checks behind the traversal. nBitsUsed is the difference of the lengths.
abbrev pub accept : PartialTree → ℕ × Extraction → ℕ × List ℕ
accept t (root, x) =
    if x.bad
    then (0, x.vmatch)
    else if not ((length t.bits - length x.bits + 7) / 8 == (length t.bits + 7) / 8)
    then (0, x.vmatch)
    else if not (length x.hashes == 0)
    then (0, x.vmatch)
    else (root, x.vmatch)

-- Hash(BEGIN(a), END(a), BEGIN(b), END(b)) of hash.h is the argument `join a b`.
module _ (join : ℕ → ℕ → ℕ) where
  -- CalcHash, where `n` is nTransactions
  unfoldable pub calc_hash : ℕ → ℕ → ℕ → List ℕ → ℕ
  calc_hash n zero pos txids = or_zero (get_elem? txids pos)
  calc_hash n (suc height) pos txids =
      let left = calc_hash n height (pos * 2) txids in
      let right = calc_hash n height (pos * 2 + 1) txids in
      if ltb (pos * 2 + 1) (calc_tree_width n height) then join left right else join left left

  -- TraverseAndBuild: what it appends to vBits and vHash.
  unfoldable pub traverse_and_build : ℕ → ℕ → ℕ → List ℕ → List Bool → List Bool × List ℕ
  unfolding calc_hash match_loop
  traverse_and_build n zero pos txids vmatch =
      (parent_of_match n vmatch zero pos ∷ [], calc_hash n zero pos txids ∷ [])
  traverse_and_build n (suc height) pos txids vmatch =
      let left = traverse_and_build n height (pos * 2) txids vmatch in
      let right = traverse_and_build n height (pos * 2 + 1) txids vmatch in
      if parent_of_match n vmatch (suc height) pos
      then if ltb (pos * 2 + 1) (calc_tree_width n height)
        then (true ∷ (left.0 ++ right.0), left.1 ++ right.1)
        else (true ∷ left.0, left.1)
      else (false ∷ [], calc_hash n (suc height) pos txids ∷ [])

  -- CPartialMerkleTree(vTxid, vMatch)
  unfoldable pub partial_tree : List ℕ → List Bool → PartialTree
  unfolding traverse_and_build
  partial_tree txids vmatch =
      let built = traverse_and_build (length txids) (tree_height (length txids)) 0 txids vmatch in
      record { transactions = length txids; bits = built.0; hashes = built.1; bad = false }

  -- TraverseAndExtract. `step` takes the two subtrees, from the left one on.
  abbrev pub descend :
      Bool
      → (Extraction → ℕ × Extraction)
      → (Extraction → ℕ × Extraction)
      → Extraction
      → ℕ × Extraction
  descend true left right x = let a = left x in let b = right a.1 in (join a.0 b.0, b.1)
  descend false left right x = let a = left x in (join a.0 a.0, a.1)

  unfoldable pub traverse_and_extract : ℕ → ℕ → ℕ → List Bool → Extraction → ℕ × Extraction
  traverse_and_extract n height pos [] x = (0, record x { bad = true })
  traverse_and_extract n zero pos (b ∷ r) x = take_hash b x.hashes (record x { bits = r })
  traverse_and_extract n (suc height) pos (b ∷ r) x =
      let below =
        descend (ltb (pos * 2 + 1) (calc_tree_width n height))
          (λ y. traverse_and_extract n height (pos * 2) y.bits y)
          (λ y. traverse_and_extract n height (pos * 2 + 1) y.bits y) (record x { bits = r }) in
      if b then below else take_hash false x.hashes (record x { bits = r })

  -- ExtractMatches: the root, or 0, and vMatch.
  unfoldable pub extract_matches : PartialTree → ℕ × List ℕ
  unfolding traverse_and_extract
  extract_matches t =
      if t.transactions == 0
      then (0, [])
      else if ltb (max_block_size / 60) t.transactions
      then (0, [])
      else if ltb t.transactions (length t.hashes)
      then (0, [])
      else if ltb (length t.bits) (length t.hashes)
      then (0, [])
      else accept t (
          traverse_and_extract t.transactions (tree_height t.transactions) 0 t.bits
            (record { bits = t.bits; hashes = t.hashes; vmatch = []; bad = t.bad }))
