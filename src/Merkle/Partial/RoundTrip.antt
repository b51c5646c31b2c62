-- ===== src/Merkle/Partial/RoundTrip.antt =====
-- What TraverseAndExtract (main.cpp) finds in what TraverseAndBuild wrote.
use mathlib.Core.List.{append_assoc, append-nil}
use darcoin.Common.{
  ℕ, zero, suc, ◌+◌, ◌*◌, ◌^◌, ◌≤◌, ◌<◌, ◌≡◌, refl, sym, ap, ◌∙◌, Bool, true, false, Bool-cases,
  inl, inr, List, ◌++◌, le_or_lt, ltb, ltb→lt, ltb-false→le, length, arith,
}
use darcoin.Merkle.Partial.{
  Extraction, calc_tree_width, parent_of_match, calc_hash, traverse_and_build, descend,
  traverse_and_extract,
}
use darcoin.Merkle.Partial.Segments.{pow_double, pow_step}
use darcoin.Merkle.Partial.Leaves.{below, below-halves, below_beyond, below_unmatched, below_leaf}
use darcoin.Merkle.Partial.Width.{calc_tree_width_iff}

module _ (join : ℕ → ℕ → ℕ) (txids : List ℕ) (marks : List Bool)
    (e : length txids ≡ length marks) where
  abbrev pub n : ℕ
  n = length marks

  -- Written in front of more bits and hashes, the subtree is read to its end.
  abbrev pub IsRead : ℕ → ℕ → Type 0
  IsRead h pos =
      (bits : List Bool) (hashes vmatch : List ℕ) (b : List Bool) (bad : Bool)
      → traverse_and_extract join n h pos ((traverse_and_build join n h pos txids marks).0 ++ bits)
          (record {
            bits = b;
            hashes = (traverse_and_build join n h pos txids marks).1 ++ hashes;
            vmatch = vmatch;
            bad = bad;
          })
        ≡ (
          calc_hash join n h pos txids,
          record {
            bits = bits;
            hashes = hashes;
            vmatch = vmatch ++ below txids marks h pos;
            bad = bad;
          },
        )

  IsRead-leaf : (pos : ℕ) → pos < n → n + 1 ≤ 2 ^ 32 → IsRead 0 pos
  unfolding traverse_and_extract traverse_and_build
  IsRead-leaf pos l s bits hashes vmatch b bad =
      rw (below_leaf txids marks pos e (omega (arith, l, e)) s)
        (elim (Bool-cases (parent_of_match n marks 0 pos)) [
          | inl y ↦ rw y refl
          | inr k ↦ rw (k, append-nil vmatch) refl
        ])

  -- No transaction below the node is marked.
  IsRead-unmatched :
      (h pos : ℕ)
      → pos * 2 ^ suc h < n
      → n + 2 ^ suc h ≤ 2 ^ 32
      → parent_of_match n marks (suc h) pos ≡ false
      → IsRead (suc h) pos
  unfolding traverse_and_extract traverse_and_build
  IsRead-unmatched h pos l s k bits hashes vmatch b bad =
      rw (k, below_unmatched txids marks (suc h) pos l s k, append-nil vmatch) refl

  IsRead-both :
      (h pos : ℕ)
      → parent_of_match n marks (suc h) pos ≡ true
      → ltb (pos * 2 + 1) (calc_tree_width n h) ≡ true
      → IsRead h (pos * 2)
      → IsRead h (pos * 2 + 1)
      → IsRead (suc h) pos
  unfolding traverse_and_extract traverse_and_build calc_hash
  IsRead-both h pos y w left right bits hashes vmatch b bad =
      let a = traverse_and_build join n h (pos * 2) txids marks in
      let c = traverse_and_build join n h (pos * 2 + 1) txids marks in
      let go_left = λ (x : Extraction). traverse_and_extract join n h (pos * 2) x.bits x in
      let go_right = λ (x : Extraction). traverse_and_extract join n h (pos * 2 + 1) x.bits x in
      let start : Extraction = record {
        bits = a.0 ++ (c.0 ++ bits);
        hashes = a.1 ++ (c.1 ++ hashes);
        vmatch = vmatch;
        bad = bad;
      } in
      rw (y, w, append_assoc a.0 c.0 bits, append_assoc a.1 c.1 hashes)
        (ap (λ t. descend join t go_left go_right start) w
          ∙ ap (λ (t : ℕ × Extraction). (join t.0 ((go_right t.1).0), (go_right t.1).1))
              (left (c.0 ++ bits) (c.1 ++ hashes) vmatch (a.0 ++ (c.0 ++ bits)) bad)
          ∙ ap (λ (t : ℕ × Extraction). (join (calc_hash join n h (pos * 2) txids) t.0, t.1))
              (right bits hashes (vmatch ++ below txids marks h (pos * 2)) (c.0 ++ bits) bad)
          ∙ ap
              (λ v. (
                join (calc_hash join n h (pos * 2) txids) (calc_hash join n h (pos * 2 + 1) txids),
                record { bits = bits; hashes = hashes; vmatch = v; bad = bad },
              ))
              (append_assoc vmatch (below txids marks h (pos * 2))
                  (below txids marks h (pos * 2 + 1))
                ∙ ap (λ v. vmatch ++ v) (sym (below-halves txids marks h pos e))))

  IsRead-left :
      (h pos : ℕ)
      → parent_of_match n marks (suc h) pos ≡ true
      → ltb (pos * 2 + 1) (calc_tree_width n h) ≡ false
      → n ≤ (pos * 2 + 1) * 2 ^ h
      → IsRead h (pos * 2)
      → IsRead (suc h) pos
  unfolding traverse_and_extract traverse_and_build calc_hash
  IsRead-left h pos y w beyond left bits hashes vmatch b bad =
      let a = traverse_and_build join n h (pos * 2) txids marks in
      let go_left = λ (x : Extraction). traverse_and_extract join n h (pos * 2) x.bits x in
      let go_right = λ (x : Extraction). traverse_and_extract join n h (pos * 2 + 1) x.bits x in
      let start : Extraction = record {
        bits = a.0 ++ bits;
        hashes = a.1 ++ hashes;
        vmatch = vmatch;
        bad = bad;
      } in
      let alone : below txids marks h (pos * 2) ≡ below txids marks (suc h) pos = sym (
        below-halves txids marks h pos e
        ∙ ap (λ v. below txids marks h (pos * 2) ++ v)
            (below_beyond txids marks h (pos * 2 + 1) (omega (arith, beyond, e)))
        ∙ append-nil (below txids marks h (pos * 2))) in
      rw (y, w)
        (ap (λ t. descend join t go_left go_right start) w
          ∙ ap (λ (t : ℕ × Extraction). (join t.0 t.0, t.1))
              (left bits hashes vmatch (a.0 ++ bits) bad)
          ∙ ap
              (λ v. (
                join (calc_hash join n h (pos * 2) txids) (calc_hash join n h (pos * 2) txids),
                record { bits = bits; hashes = hashes; vmatch = vmatch ++ v; bad = bad },
              ))
              alone)

  pub IsRead-traverse : (h pos : ℕ) → pos * 2 ^ h < n → n + 2 ^ h ≤ 2 ^ 32 → IsRead h pos
  IsRead-traverse zero pos l s = IsRead-leaf pos (omega (arith, l)) (omega (arith, s))
  IsRead-traverse (suc h) pos l s =
      let small : n + 2 ^ h ≤ 2 ^ 32 = omega (arith, s, pow_double h) in
      let left = IsRead-traverse h (pos * 2) (omega (arith, l, pow_step pos h)) small in
      elim (Bool-cases (parent_of_match n marks (suc h) pos)) [
        | inr k ↦ IsRead-unmatched h pos l s k
        | inl y ↦ elim (Bool-cases (ltb (pos * 2 + 1) (calc_tree_width n h))) [
          | inl w ↦ IsRead-both h pos y w left (
              IsRead-traverse h (pos * 2 + 1)
                ((calc_tree_width_iff n h (pos * 2 + 1) small).0 (ltb→lt _ _ w)) small)
          | inr w ↦
              IsRead-left h pos y w
                (elim (le_or_lt n ((pos * 2 + 1) * 2 ^ h)) [
                  | inl low ↦ low
                  | inr high ↦ absurd (
                      omega (
                        arith,
                        (calc_tree_width_iff n h (pos * 2 + 1) small).1 high,
                        ltb-false→le (pos * 2 + 1) (calc_tree_width n h) w,
                      ))
                ])
                left
        ]
      ]
