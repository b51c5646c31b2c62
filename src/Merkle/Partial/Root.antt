-- ===== src/Merkle/Partial/Root.antt =====
-- CalcHash (main.cpp) against BuildMerkleTree (core.cpp).
use Prim.Native.Nat.{min}
use darcoin.Common.{
  ℕ, zero, suc, ◌+◌, ◌-◌, ◌*◌, ◌/◌, ◌^◌, ◌≤◌, ◌<◌, ◌≡◌, refl, sym, ap, subst, ◌∙◌, Bool-cases, true,
  false, inl, inr, some, List, ◌++◌, le_or_lt, ltb, ltb→lt, ltb-false→le, length, get_elem?,
  length-append, arith,
}
use darcoin.Tx.Check.{max_block_size}
use darcoin.Merkle.{MerkleBlock, back, level_loop, build_merkle_tree}
use darcoin.Merkle.Positions.{Reads, Reads-self, Reads-end, Reads-get, back_lem}
use darcoin.Merkle.Laws.{above, length-above, get_elem?-above, pair_loop-above}
use darcoin.Merkle.Partial.{calc_tree_width, tree_height, calc_hash}
use darcoin.Merkle.Partial.Soundness.{get_elem?-or_zero}
use darcoin.Merkle.Partial.Segments.{pow_double, pow_step}
use darcoin.Merkle.Partial.Width.{calc_tree_width_iff, tree_height_lem}
use darcoin.Common.Bits.{pow-pos}

beyond :
    (n h pos : ℕ) → n + 2 ^ h ≤ 2 ^ 32 → ltb pos (calc_tree_width n h) ≡ false → n ≤ pos * 2 ^ h
beyond n h pos small w = elim (le_or_lt n (pos * 2 ^ h)) [
  | inl low ↦ low
  | inr high ↦
      absurd (omega (arith, (calc_tree_width_iff n h pos small).1 high, ltb-false→le _ _ w))
]

module _ (join : ℕ → ℕ → ℕ) where
  -- The level of a height.
  unfoldable level : ℕ → List ℕ → List ℕ
  level zero xs = xs
  level (suc h) xs = above join (level h xs)

  level-above : (h : ℕ) (xs : List ℕ) → level (suc h) xs ≡ level h (above join xs)
  unfolding level
  level-above zero xs = refl
  level-above (suc h) xs = ap (above join) (level-above h xs)

  length-level_lt : (h pos : ℕ) (xs : List ℕ) → pos * 2 ^ h < length xs → pos < length (level h xs)
  unfolding level
  length-level_lt zero pos xs l = omega (arith, l)
  length-level_lt (suc h) pos xs l = omega (
    arith,
    length-above join (level h xs),
    length-level_lt h (pos * 2) xs (omega (arith, l, pow_step pos h)),
  )

  length-level_le : (h pos : ℕ) (xs : List ℕ) → length xs ≤ pos * 2 ^ h → length (level h xs) ≤ pos
  unfolding level
  length-level_le zero pos xs l = omega (arith, l)
  length-level_le (suc h) pos xs l = omega (
    arith,
    length-above join (level h xs),
    length-level_le h (pos * 2) xs (omega (arith, l, pow_step pos h)),
  )

  get_elem?-level :
      (h pos : ℕ) (xs : List ℕ)
      → pos * 2 ^ h < length xs
      → length xs + 2 ^ h ≤ 2 ^ 32
      → get_elem? (level h xs) pos ≡ some (calc_hash join (length xs) h pos xs)
  unfolding level calc_hash
  get_elem?-level zero pos xs l s = get_elem?-or_zero xs pos (omega (arith, l))
  get_elem?-level (suc h) pos xs l s =
      let small : length xs + 2 ^ h ≤ 2 ^ 32 = omega (arith, s, pow_double h) in
      let below : pos * 2 * 2 ^ h < length xs = omega (arith, l, pow_step pos h) in
      let first : pos * 2 ≡ 2 * pos = omega arith in
      let left : get_elem? (level h xs) (2 * pos)
          ≡ some (calc_hash join (length xs) h (pos * 2) xs) =
        subst (λ k. get_elem? (level h xs) k ≡ some (calc_hash join (length xs) h (pos * 2) xs))
          first (get_elem?-level h (pos * 2) xs below small) in
      let some_left = length-level_lt h (pos * 2) xs below in
      elim (Bool-cases (ltb (pos * 2 + 1) (calc_tree_width (length xs) h))) [
        | inl w ↦
            let inside : (pos * 2 + 1) * 2 ^ h < length xs =
              (calc_tree_width_iff (length xs) h (pos * 2 + 1) small).0 (ltb→lt _ _ w) in
            let place : pos * 2 + 1 ≡ min (2 * pos + 1) (length (level h xs) - 1) =
              omega (arith, length-level_lt h (pos * 2 + 1) xs inside) in
            rw w (
              get_elem?-above join (level h xs) pos _ _ left (
                subst
                  (λ k.
                    get_elem? (level h xs) k ≡ some (calc_hash join (length xs) h (pos * 2 + 1) xs))
                  place (get_elem?-level h (pos * 2 + 1) xs inside small)))
        | inr w ↦
            let outside : length (level h xs) ≤ pos * 2 + 1 =
              length-level_le h (pos * 2 + 1) xs (beyond (length xs) h (pos * 2 + 1) small w) in
            let place : 2 * pos ≡ min (2 * pos + 1) (length (level h xs) - 1) =
              omega (arith, outside, some_left) in
            rw w (
              get_elem?-above join (level h xs) pos _ _ left (
                subst
                  (λ k. get_elem? (level h xs) k ≡ some (calc_hash join (length xs) h (pos * 2) xs))
                  place left))
      ]

  level_loop-stop :
      (fuel : ℕ) (tree : List ℕ) (j size : ℕ)
      → size ≤ 1
      → level_loop join fuel tree j size ≡ some tree
  unfolding level_loop
  level_loop-stop zero tree j size l = refl
  level_loop-stop (suc fuel) tree j size l =
      let stop : ltb 1 size ≡ false = ground (arith, l) in rw stop refl

  level_loop-above :
      (fuel : ℕ) (tree xs : List ℕ) (j : ℕ)
      → Reads tree j xs
      → 2 ≤ length xs
      → level_loop join (suc fuel) tree j (length xs)
        ≡ level_loop join fuel (tree ++ above join xs) (j + length xs) (length (above join xs))
  unfolding level_loop
  level_loop-above fuel tree xs j reads l =
      let go : ltb 1 (length xs) ≡ true = ground (arith, l) in
      rw
        (
          go,
          pair_loop-above join (length xs + 1) tree xs j 0 (length xs)
              (subst (λ n. Reads tree n xs) (omega arith) reads) (omega arith) (omega arith),
          length-above join xs,
        )
        refl

  level_loop-level :
      (h fuel : ℕ) (tree xs : List ℕ) (j v : ℕ)
      → Reads tree j xs
      → j + length xs ≡ length tree
      → length xs ≤ 2 ^ h
      → 2 ^ h < 2 * length xs
      → length xs ≤ suc fuel
      → get_elem? (level h xs) 0 ≡ some v
      → (whole : List ℕ) × (level_loop join fuel tree j (length xs) ≡ some whole) × (back whole ≡ v)
  unfolding level
  level_loop-level zero fuel tree xs j v reads e low high f g = (
    tree,
    level_loop-stop fuel tree j (length xs) (omega (arith, low)),
    back_lem tree (j + 0) v (Reads-get tree j xs 0 v reads g) (omega (arith, e, low, high)),
  )
  level_loop-level (suc h) zero tree xs j v reads e low high f g =
      absurd (omega (arith, high, f, pow_double h, pow-pos h))
  level_loop-level (suc h) (suc fuel) tree xs j v reads e low high f g =
      let half : length (above join xs) ≡ (length xs + 1) / 2 = length-above join xs in
      let next =
        level_loop-level h fuel (tree ++ above join xs) (above join xs) (j + length xs) v
          (subst (λ n. Reads (tree ++ above join xs) n (above join xs)) (sym e)
            (Reads-end tree (above join xs)))
          (omega (arith, length-append tree (above join xs), e))
          (omega (arith, half, low, pow_double h)) (omega (arith, half, high, pow_double h))
          (omega (arith, half, f, high, pow_double h, pow-pos h))
          (ap (λ ys. get_elem? ys 0) (sym (level-above h xs)) ∙ g) in
      (
        next.0,
        level_loop-above fuel tree xs j reads (omega (arith, high, pow_double h, pow-pos h))
            ∙ next.1,
        next.2,
      )

  -- The root that BuildMerkleTree computes is the one that CalcHash computes at the height of the
  -- partial tree, for any block that has a transaction and is not too large.
  pub build_merkle_tree-calc_hash :
      (b : MerkleBlock)
      → 0 < length b.tx_hashes
      → length b.tx_hashes ≤ max_block_size / 60
      → (whole : List ℕ) × (build_merkle_tree join b
          ≡ some (
            calc_hash join (length b.tx_hashes) (tree_height (length b.tx_hashes)) 0 b.tx_hashes,
            record b { merkle_tree = whole },
          ))
  unfolding build_merkle_tree
  build_merkle_tree-calc_hash b p m =
      let xs : List ℕ = b.tx_hashes in
      let n : ℕ = length xs in
      let high : (n ≤ 2 ^ tree_height n) × (2 ^ tree_height n < 2 * n) =
        tree_height_lem n p (omega (arith, m)) in
      let built =
        level_loop-level (tree_height n) n xs xs 0 _ (Reads-self xs) (omega arith) high.0 high.1
          (omega arith)
          (get_elem?-level (tree_height n) 0 xs (omega (arith, p)) (omega (arith, high.1, m))) in
      (built.0, rw (built.1, built.2) refl)
