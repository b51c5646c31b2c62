-- ===== src/Merkle/Laws.antt =====
-- The branch of a transaction leads from its hash to the root of the tree.
use Prim.Native.Nat.{min, bit_xor}
use mathlib.Core.List.{append_assoc, append-nil}
use darcoin.Common.{
  ℕ, zero, suc, ◌+◌, ◌-◌, ◌*◌, ◌/◌, ◌%◌, ◌≤◌, ◌<◌, ◌≡◌, refl, ap, sym, subst, ◌∙◌, some, List, [],
  ◌∷◌, ◌++◌, pos, inl, inr, Bool-cases, true, false, ltb, ◌==◌, if◌then◌else◌, length, get_elem?,
  length-append, arith,
}
use darcoin.Common.Bits.{bit_xor-one, bit_and-one}
use darcoin.Merkle.{
  MerkleBlock, back, pair_loop, level_loop, build_merkle_tree, branch_loop, ensure_built,
  get_merkle_branch, check_loop, check_merkle_branch,
}
use darcoin.Merkle.Positions.{
  Reads, get_elem?-append, Reads-append, Reads-self, Reads-end, Reads-get, get_elem?_lem,
  get_elem?-bound, back_lem,
}

module _ (join : ℕ → ℕ → ℕ) where
  -- The next level: each node with its right neighbour, the last one of an odd number with itself.
  unfoldable pub above : List ℕ → List ℕ
  above [] = []
  above (x ∷ []) = join x x ∷ []
  above (x ∷ y ∷ r) = join x y ∷ above r

  pub length-above : (xs : List ℕ) → length (above xs) ≡ (length xs + 1) / 2
  unfolding above
  length-above [] = refl
  length-above (x ∷ []) = refl
  length-above (x ∷ y ∷ r) = omega (arith, length-above r)

  pub get_elem?-above :
      (xs : List ℕ) (k a b : ℕ)
      → get_elem? xs (2 * k) ≡ some a
      → get_elem? xs (min (2 * k + 1) (length xs - 1)) ≡ some b
      → get_elem? (above xs) k ≡ some (join a b)
  unfolding above
  get_elem?-above [] k a b p q = cc
  get_elem?-above (x ∷ []) zero a b p q = ground (arith, p, q)
  get_elem?-above (x ∷ []) (suc k) a b p q =
      let e : 2 * suc k ≡ suc (2 * k + 1) = omega arith in absurd (cc (rw e at p))
  get_elem?-above (x ∷ y ∷ r) zero a b p q =
      let e : min (2 * 0 + 1) (length (x ∷ y ∷ r) - 1) ≡ 1 = omega arith in
      let q' : some y ≡ some b = rw e at q in ground (arith, p, q')
  get_elem?-above (x ∷ y ∷ r) (suc k) a b p q =
      let e : 2 * suc k ≡ suc (suc (2 * k)) = omega arith in
      let low : get_elem? r (2 * k) ≡ some a = rw e at p in
      let bound : 2 * k < length r = get_elem?-bound r (2 * k) a low in
      let e' : min (2 * suc k + 1) (length (x ∷ y ∷ r) - 1)
          ≡ suc (suc (min (2 * k + 1) (length r - 1))) =
        omega arith in
      get_elem?-above r k a b low (rw e' at q)

  pair_loop-stop :
      (fuel : ℕ) (tree : List ℕ) (j i size : ℕ)
      → size ≤ i
      → 0 < fuel
      → pair_loop join fuel tree j i size ≡ some tree
  unfolding pair_loop
  pair_loop-stop zero tree j i size e f = absurd (omega arith)
  pair_loop-stop (suc fuel) tree j i size e f =
      let stop : ltb i size ≡ false = ground arith in rw stop refl

  pub pair_loop-above :
      (fuel : ℕ) (tree rest : List ℕ) (j i size : ℕ)
      → Reads tree (j + i) rest
      → size ≡ i + length rest
      → length rest < fuel
      → pair_loop join fuel tree j i size ≡ some (tree ++ above rest)
  unfolding pair_loop above
  pair_loop-above zero tree rest j i size h e f = absurd (omega arith)
  pair_loop-above (suc fuel) tree [] j i size h e f =
      pair_loop-stop (suc fuel) tree j i size (omega arith) (omega arith)
      ∙ ap some (sym (append-nil tree))
  pair_loop-above (suc fuel) tree (x ∷ []) j i size h e f =
      let go : ltb i size ≡ true = ground arith in
      let same : j + min (i + 1) (size - 1) ≡ j + i = omega arith in
      rw (go, same, h.0)
        (pair_loop-stop fuel (tree ++ join x x ∷ []) j (i + 2) size (omega arith) (omega arith))
  pair_loop-above (suc fuel) tree (x ∷ y ∷ r) j i size h e f =
      let go : ltb i size ≡ true = ground arith in
      let next : j + min (i + 1) (size - 1) ≡ j + i + 1 = omega arith in
      let reads : Reads (tree ++ join x y ∷ []) (j + (i + 2)) r =
        Reads-append tree (join x y ∷ []) (j + (i + 2)) r
          (subst (λ n. Reads tree n r) (omega arith) h.1.1) in
      rw (go, next, h.0, h.1.0)
        (pair_loop-above fuel (tree ++ join x y ∷ []) r j (i + 2) size reads (omega arith)
            (omega arith)
          ∙ ap some (append_assoc tree (join x y ∷ []) (above r)))

  -- The other side of a node, and what CheckMerkleBranch makes of both.
  climb :
      (xs : List ℕ) (i h : ℕ)
      → get_elem? xs i ≡ some h
      → 2 ≤ length xs
      → (x : ℕ) × (get_elem? xs (min (bit_xor i 1) (length xs - 1)) ≡ some x)
        × (get_elem? (above xs) (i / 2) ≡ some (if i % 2 == 0 then join h x else join x h))
  climb xs i h e size =
      let bound : i < length xs = get_elem?-bound xs i h e in
      let (x, side) = get_elem?_lem xs (min (bit_xor i 1) (length xs - 1)) (omega arith) in
      (
        x,
        side,
        elim (Bool-cases (i % 2 == 0)) [
          | inl even ↦
              let same : i ≡ 2 * (i / 2) = ground arith in
              let other : min (bit_xor i 1) (length xs - 1)
                  ≡ min (2 * (i / 2) + 1) (length xs - 1) =
                ground (arith, bit_xor-one i) in
              rw even (
                get_elem?-above xs (i / 2) h x (ap (get_elem? xs) (sym same) ∙ e)
                  (ap (get_elem? xs) (sym other) ∙ side))
          | inr odd ↦
              let same : i ≡ min (2 * (i / 2) + 1) (length xs - 1) = ground arith in
              let other : min (bit_xor i 1) (length xs - 1) ≡ 2 * (i / 2) =
                ground (arith, bit_xor-one i) in
              rw odd (
                get_elem?-above xs (i / 2) x h (ap (get_elem? xs) (sym other) ∙ side)
                  (ap (get_elem? xs) (sym same) ∙ e))
        ],
      )

  -- The tree that is built from a level up, and the way through it.
  record Leads (fuel : ℕ) (tree : List ℕ) (j size i h : ℕ) : Type 0 where
    more : List ℕ
    branch : List ℕ
    grown : level_loop join fuel tree j size ≡ some (tree ++ more)
    found : branch_loop join fuel (tree ++ more) j size i ≡ some branch
    root : check_loop join h branch (pos i) ≡ back (tree ++ more)

  single-Leads :
      (fuel : ℕ) (tree xs : List ℕ) (j i h : ℕ)
      → Reads tree j xs
      → j + length xs ≡ length tree
      → length xs ≤ 1
      → get_elem? xs i ≡ some h
      → Leads fuel tree j (length xs) i h
  unfolding level_loop branch_loop check_loop
  single-Leads fuel tree xs j i h reads e f g =
      let bound : i < length xs = get_elem?-bound xs i h g in
      let stop : ltb 1 (length xs) ≡ false = ground arith in
      let last : h ≡ back (tree ++ []) =
        sym (
          rw append-nil
            (back_lem tree (j + i) h (Reads-get tree j xs i h reads g) (omega arith))) in
      elim fuel as (λ m. Leads m tree j (length xs) i h) [
        | zero ↦ record {
          more = [];
          branch = [];
          grown = ap some (sym (append-nil tree));
          found = refl;
          root = last;
        }
        | suc m ↦ record {
          more = [];
          branch = [];
          grown = rw stop (ap some (sym (append-nil tree)));
          found = rw stop refl;
          root = last;
        }
      ]

  step-Leads :
      (fuel : ℕ) (tree xs : List ℕ) (j i h x : ℕ)
      → Reads tree j xs
      → 2 ≤ length xs
      → get_elem? xs (min (bit_xor i 1) (length xs - 1)) ≡ some x
      → Leads fuel
          (tree ++ above xs)
          (j + length xs)
          ((length xs + 1) / 2)
          (i / 2)
          (if i % 2 == 0 then join h x else join x h)
      → Leads (suc fuel) tree j (length xs) i h
  unfolding level_loop branch_loop check_loop
  step-Leads fuel tree xs j i h x reads size side l =
      let go : ltb 1 (length xs) ≡ true = ground arith in
      let pairs : pair_loop join (length xs + 1) tree j 0 (length xs) ≡ some (tree ++ above xs) =
        pair_loop-above (length xs + 1) tree xs j 0 (length xs)
          (subst (λ n. Reads tree n xs) (omega arith) reads) (omega arith) (omega arith) in
      let whole : (tree ++ above xs) ++ l.more ≡ tree ++ (above xs ++ l.more) =
        append_assoc tree (above xs) l.more in
      let other : get_elem? (tree ++ (above xs ++ l.more)) (j + min (bit_xor i 1) (length xs - 1))
          ≡ some x =
        Reads-get (tree ++ (above xs ++ l.more)) j xs (min (bit_xor i 1) (length xs - 1)) x
          (Reads-append tree (above xs ++ l.more) j xs reads) side in
      record {
        more = above xs ++ l.more;
        branch = x ∷ l.branch;
        grown = rw (go, pairs) (l.grown ∙ ap some whole);
        found = rw (go, other) (rw (rw whole at l.found) refl);
        root = rw bit_and-one (l.root ∙ ap back whole);
      }

  level-Leads :
      (fuel : ℕ) (tree xs : List ℕ) (j i h : ℕ)
      → Reads tree j xs
      → j + length xs ≡ length tree
      → length xs ≤ suc fuel
      → get_elem? xs i ≡ some h
      → Leads fuel tree j (length xs) i h
  level-Leads zero tree xs j i h reads e f g =
      single-Leads zero tree xs j i h reads e (omega arith) g
  level-Leads (suc fuel) tree xs j i h reads e f g = elim (Bool-cases (ltb 1 (length xs))) [
    | inr few ↦ single-Leads (suc fuel) tree xs j i h reads e (ground (arith, few)) g
    | inl many ↦
        let size : 2 ≤ length xs = ground (arith, many) in
        let (x, side, up) = climb xs i h g size in
        let half : length (above xs) ≡ (length xs + 1) / 2 = length-above xs in
        step-Leads fuel tree xs j i h x reads size side (
          subst
            (λ n.
              Leads fuel (tree ++ above xs) (j + length xs) n (i / 2)
                (if i % 2 == 0 then join h x else join x h))
            half
            (level-Leads fuel (tree ++ above xs) (above xs) (j + length xs) (i / 2) _
              (subst (λ n. Reads (tree ++ above xs) n (above xs)) (sym e)
                (Reads-end tree (above xs)))
              (omega (arith, length-append tree (above xs), e)) (omega (arith, half, f)) up))
  ]

  ensure_built-kept :
      (tree : List ℕ) (i h : ℕ) (b : MerkleBlock)
      → get_elem? tree i ≡ some h
      → ensure_built join tree b ≡ some (0, b)
  unfolding ensure_built
  ensure_built-kept [] i h b e = cc
  ensure_built-kept (x ∷ r) i h b e = refl

  -- Once BuildMerkleTree has built the tree of a block, no read is out of bounds, and the branch that
  -- GetMerkleBranch gives for a transaction of the block takes CheckMerkleBranch from the hash of the
  -- transaction to the root, whatever the hash function.
  pub check-get_merkle_branch :
      (b : MerkleBlock) (i h : ℕ)
      → get_elem? b.tx_hashes i ≡ some h
      → (root : ℕ) × (branch : List ℕ) × (b' : MerkleBlock) × (build_merkle_tree join b
          ≡ some (root, b'))
        × (get_merkle_branch join b' i ≡ some (branch, b'))
        × (check_merkle_branch join h branch (pos i) ≡ root)
  unfolding build_merkle_tree get_merkle_branch check_merkle_branch
  check-get_merkle_branch b i h e =
      let l : Leads (length b.tx_hashes) b.tx_hashes 0 (length b.tx_hashes) i h =
        level-Leads (length b.tx_hashes) b.tx_hashes b.tx_hashes 0 i h (Reads-self b.tx_hashes)
          (omega arith) (omega arith) e in
      let tree : List ℕ = b.tx_hashes ++ l.more in
      let b' : MerkleBlock = record b { merkle_tree = tree } in
      let kept : ensure_built join tree b' ≡ some (0, b') =
        ensure_built-kept tree i h b' (get_elem?-append b.tx_hashes l.more i h e) in
      (back tree, l.branch, b', rw l.grown refl, rw (kept, l.found) refl, l.root)
