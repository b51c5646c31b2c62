-- ===== src/Merkle/Partial/Laws.antt =====
-- ExtractMatches (main.cpp) on a partial tree that was made from a block.
use mathlib.Core.List.{append-nil}
use darcoin.Common.{
  ℕ, zero, suc, ◌+◌, ◌-◌, ◌*◌, ◌/◌, ◌^◌, ◌≤◌, ◌<◌, ◌≡◌, refl, sym, ap, subst, ◌∙◌, Bool, false,
  Bool-cases, inl, inr, List, [], ◌∷◌, ◌++◌, ltb, ltb→lt, ◌==◌, ==_self, length, length-append,
  take, drop, arith,
}
use darcoin.Tx.Check.{max_block_size}
use darcoin.Merkle.Partial.{
  PartialTree, calc_tree_width, tree_height, parent_of_match, calc_hash, traverse_and_build,
  partial_tree, traverse_and_extract, accept, extract_matches,
}
use darcoin.Merkle.Partial.Segments.{
  segment, segment-halves, pow_double, pow_step, take_beyond, length-drop_sub,
}
use darcoin.Merkle.Partial.Leaves.{chosen, below}
use darcoin.Merkle.Partial.RoundTrip.{IsRead-traverse}
use darcoin.Merkle.Partial.Width.{calc_tree_width_iff, tree_height_lem}
use darcoin.Common.Bits.{pow-pos}

length-take_le {ℓ} : {A : Type ℓ} → (k : ℕ) (s : List A) → length (take k s) ≤ length s
length-take_le zero s = omega arith
length-take_le (suc k) [] = omega arith
length-take_le (suc k) (x ∷ s) = omega (arith, length-take_le k s)

-- A node has a transaction below it.
segment_some :
    {A : Type 0}
    → (k count : ℕ) (s : List A) → k < length s
    → 0 < count
    → 1 ≤ length (segment k count s)
segment_some zero (suc c) (x ∷ s) h p = omega arith
segment_some (suc k) count (x ∷ s) h p = segment_some k count s (omega (arith, h)) p
segment_some k zero s h p = absurd (omega (arith, p))
segment_some k (suc c) [] h p = absurd (omega (arith, h))

module _ (join : ℕ → ℕ → ℕ) (n : ℕ) (txids : List ℕ) (marks : List Bool) where
  -- There are no more hashes than bits.
  hashes-le-bits :
      (h pos : ℕ)
      → length ((traverse_and_build join n h pos txids marks).1)
        ≤ length ((traverse_and_build join n h pos txids marks).0)
  unfolding traverse_and_build
  hashes-le-bits zero pos = omega arith
  hashes-le-bits (suc h) pos =
      let a = traverse_and_build join n h (pos * 2) txids marks in
      let c = traverse_and_build join n h (pos * 2 + 1) txids marks in
      elim (Bool-cases (parent_of_match n marks (suc h) pos)) [
        | inr k ↦ rw k (omega arith)
        | inl y ↦ elim (Bool-cases (ltb (pos * 2 + 1) (calc_tree_width n h))) [
          | inl w ↦
              rw (y, w)
                (omega (
                  arith,
                  hashes-le-bits h (pos * 2),
                  hashes-le-bits h (pos * 2 + 1),
                  length-append a.0 c.0,
                  length-append a.1 c.1,
                ))
          | inr w ↦ rw (y, w) (omega (arith, hashes-le-bits h (pos * 2)))
        ]
      ]

  -- There are no more hashes than transactions.
  hashes-le-transactions :
      (h pos : ℕ)
      → pos * 2 ^ h < n
      → n ≤ length txids
      → n + 2 ^ h ≤ 2 ^ 32
      → length ((traverse_and_build join n h pos txids marks).1)
        ≤ length (segment (pos * 2 ^ h) (2 ^ h) txids)
  unfolding traverse_and_build
  hashes-le-transactions zero pos l m s =
      segment_some (pos * 2 ^ 0) (2 ^ 0) txids (omega (arith, l, m)) (pow-pos 0)
  hashes-le-transactions (suc h) pos l m s =
      let a = traverse_and_build join n h (pos * 2) txids marks in
      let c = traverse_and_build join n h (pos * 2 + 1) txids marks in
      let small : n + 2 ^ h ≤ 2 ^ 32 = omega (arith, s, pow_double h) in
      let left = hashes-le-transactions h (pos * 2) (omega (arith, l, pow_step pos h)) m small in
      let whole : length (segment (pos * 2 ^ suc h) (2 ^ suc h) txids)
          ≡ length (segment (pos * 2 * 2 ^ h) (2 ^ h) txids)
            + length (segment ((pos * 2 + 1) * 2 ^ h) (2 ^ h) txids) =
        ap length (segment-halves h pos txids) ∙ length-append _ _ in
      elim (Bool-cases (parent_of_match n marks (suc h) pos)) [
        | inr k ↦ rw k (
            segment_some (pos * 2 ^ suc h) (2 ^ suc h) txids (omega (arith, l, m))
              (pow-pos (suc h)))
        | inl y ↦ elim (Bool-cases (ltb (pos * 2 + 1) (calc_tree_width n h))) [
          | inl w ↦
              let right =
                hashes-le-transactions h (pos * 2 + 1)
                  ((calc_tree_width_iff n h (pos * 2 + 1) small).0 (ltb→lt _ _ w)) m small in
              rw (y, w) (omega (arith, left, right, whole, length-append a.1 c.1))
          | inr w ↦ rw (y, w) (omega (arith, left, whole))
        ]
      ]

-- The checks of ExtractMatches pass.
accept_lem :
    (t : PartialTree) (root : ℕ) (bits : List Bool) (vmatch : List ℕ)
    → (length t.bits - length bits + 7) / 8 ≡ (length t.bits + 7) / 8
    → accept t (root, record { bits = bits; hashes = []; vmatch = vmatch; bad = false })
      ≡ (root, vmatch)
accept_lem t root bits vmatch h = rw (h, ==_self ((length t.bits + 7) / 8)) refl

below_root :
    (txids : List ℕ) (marks : List Bool) (h : ℕ)
    → length txids ≡ length marks
    → length txids ≤ 2 ^ h
    → below txids marks h 0 ≡ chosen txids marks
below_root txids marks h e l =
    let first : 0 * 2 ^ h ≡ 0 = omega arith in
    rw (first, take_beyond (2 ^ h) txids l, take_beyond (2 ^ h) marks (omega (arith, l, e))) refl

-- ExtractMatches behind its first checks.
extract_matches_checked :
    (join : ℕ → ℕ → ℕ) (t : PartialTree)
    → 0 < t.transactions
    → t.transactions ≤ max_block_size / 60
    → length t.hashes ≤ t.transactions
    → length t.hashes ≤ length t.bits
    → extract_matches join t
      ≡ accept t (
          traverse_and_extract join t.transactions
            (tree_height t.transactions)
            0
            t.bits
            (record { bits = t.bits; hashes = t.hashes; vmatch = []; bad = t.bad }))
unfolding extract_matches
extract_matches_checked join t p m h b =
    let some_left : (t.transactions == 0) ≡ false = ground (arith, p) in
    let few : ltb (max_block_size / 60) t.transactions ≡ false = ground (arith, m) in
    let hashes : ltb t.transactions (length t.hashes) ≡ false = ground (arith, h) in
    let bits : ltb (length t.bits) (length t.hashes) ≡ false = ground (arith, b) in
    rw (some_left, few, hashes, bits) refl

-- A partial tree that was made of the transactions of a block and their marks, also where its bits
-- are padded within their last byte, gives back the root that CalcHash computes of the transactions
-- and the marked transactions in their order. There is a mark for each transaction, and the block
-- has at least one transaction and no more than ExtractMatches accepts.
pub extract_matches-partial_tree :
    (join : ℕ → ℕ → ℕ) (txids : List ℕ) (marks padding : List Bool)
    → length txids ≡ length marks
    → 0 < length txids
    → length txids ≤ max_block_size / 60
    → (length ((partial_tree join txids marks).bits) + 7) / 8
      ≡ (length ((partial_tree join txids marks).bits ++ padding) + 7) / 8
    → extract_matches join (record (partial_tree join txids marks) {
      bits = (partial_tree join txids marks).bits ++ padding;
    })
      ≡ (calc_hash join (length txids) (tree_height (length txids)) 0 txids, chosen txids marks)
unfolding partial_tree
extract_matches-partial_tree join txids marks padding e p m w =
    let n : ℕ = length txids in
    let h : ℕ = tree_height n in
    let high : (n ≤ 2 ^ h) × (2 ^ h < 2 * n) = tree_height_lem n p (omega (arith, m)) in
    let room : n + 2 ^ h ≤ 2 ^ 32 = omega (arith, high.1, m) in
    let b = traverse_and_build join n h 0 txids marks in
    let total : length (b.0 ++ padding) ≡ length b.0 + length padding = length-append b.0 padding in
    let hashes : length b.1 ≤ n = omega (
      arith,
      hashes-le-transactions join n txids marks h 0 (omega (arith, p)) (omega arith) room,
      length-take_le (2 ^ h) (drop (0 * 2 ^ h) txids),
      length-drop_sub (0 * 2 ^ h) txids,
    ) in
    let from_marks : traverse_and_extract join (length marks) h 0
          ((traverse_and_build join (length marks) h 0 txids marks).0 ++ padding)
          (record {
            bits = b.0 ++ padding;
            hashes = (traverse_and_build join (length marks) h 0 txids marks).1;
            vmatch = [];
            bad = false;
          })
        ≡ (
          calc_hash join (length marks) h 0 txids,
          record { bits = padding; hashes = []; vmatch = below txids marks h 0; bad = false },
        ) =
      subst
        (λ hs.
          traverse_and_extract join (length marks) h 0
            ((traverse_and_build join (length marks) h 0 txids marks).0 ++ padding)
            (record { bits = b.0 ++ padding; hashes = hs; vmatch = []; bad = false })
          ≡ (
            calc_hash join (length marks) h 0 txids,
            record { bits = padding; hashes = []; vmatch = below txids marks h 0; bad = false },
          ))
        (append-nil ((traverse_and_build join (length marks) h 0 txids marks).1))
        (IsRead-traverse join txids marks e h 0 (omega (arith, p, e)) (omega (arith, room, e))
          padding [] [] (b.0 ++ padding) false) in
    let read : traverse_and_extract join n h 0 (b.0 ++ padding)
          (record { bits = b.0 ++ padding; hashes = b.1; vmatch = []; bad = false })
        ≡ (
          calc_hash join n h 0 txids,
          record { bits = padding; hashes = []; vmatch = below txids marks h 0; bad = false },
        ) =
      subst
        (λ k.
          traverse_and_extract join k h 0 ((traverse_and_build join k h 0 txids marks).0 ++ padding)
            (record {
              bits = b.0 ++ padding;
              hashes = (traverse_and_build join k h 0 txids marks).1;
              vmatch = [];
              bad = false;
            })
          ≡ (
            calc_hash join k h 0 txids,
            record { bits = padding; hashes = []; vmatch = below txids marks h 0; bad = false },
          ))
        (sym e) from_marks in
    extract_matches_checked join
      (record { transactions = n; bits = b.0 ++ padding; hashes = b.1; bad = false }) p m hashes
      (omega (arith, total, hashes-le-bits join n txids marks h 0))
    ∙ ap (accept (record { transactions = n; bits = b.0 ++ padding; hashes = b.1; bad = false }))
        read
    ∙ accept_lem (record { transactions = n; bits = b.0 ++ padding; hashes = b.1; bad = false })
        (calc_hash join n h 0 txids) padding (below txids marks h 0)
        (ap (λ k. (k + 7) / 8) (omega (arith, total)) ∙ w)
    ∙ ap (λ v. (calc_hash join n h 0 txids, v)) (below_root txids marks h e high.0)
