-- ===== src/Merkle/Partial/Leaves.antt =====
-- The transactions below a node of the tree of CPartialMerkleTree (main.cpp).
use native.Mathlib.Nat.{mod-eq_of_lt, suc-mul}
use darcoin.Common.{
  ℕ, zero, suc, ◌+◌, ◌-◌, ◌*◌, ◌%◌, ◌^◌, ◌≤◌, ◌<◌, ◌≡◌, refl, sym, ap, ◌∙◌, Bool, true, false, ◌||◌,
  Bool-cases, inl, inr, List, [], ◌∷◌, ◌++◌, ltb, ltb→lt, ltb-false→le, if◌then◌else◌, length, drop,
  get_elem?, arith,
}
use darcoin.Merkle.Partial.{or_zero, match_loop, parent_of_match}
use darcoin.Merkle.Partial.Segments.{
  segment, segment-halves, take_nil, drop_beyond, length-drop_same, length-take_same,
  get_elem?-drop, drop_step, take_beyond, length-drop_sub,
}

-- The transactions that are marked, in their order.
unfoldable pub chosen : List ℕ → List Bool → List ℕ
chosen [] marks = []
chosen (x ∷ r) [] = []
chosen (x ∷ r) (b ∷ marks) = let rest = chosen r marks in if b then x ∷ rest else rest

chosen-append :
    (xs ys : List ℕ) (ms bs : List Bool)
    → length xs ≡ length ms
    → chosen (xs ++ ys) (ms ++ bs) ≡ chosen xs ms ++ chosen ys bs
unfolding chosen
chosen-append [] ys [] bs e = refl
chosen-append [] ys (b ∷ ms) bs e = absurd (omega (arith, e))
chosen-append (x ∷ xs) ys [] bs e = absurd (omega (arith, e))
chosen-append (x ∷ xs) ys (true ∷ ms) bs e =
    ap (λ r. x ∷ r) (chosen-append xs ys ms bs (omega (arith, e)))
chosen-append (x ∷ xs) ys (false ∷ ms) bs e = chosen-append xs ys ms bs (omega (arith, e))

-- The marked transactions below a node.
abbrev pub below : List ℕ → List Bool → ℕ → ℕ → List ℕ
below txids marks h pos =
    chosen (segment (pos * 2 ^ h) (2 ^ h) txids) (segment (pos * 2 ^ h) (2 ^ h) marks)

pub below-halves :
    (txids : List ℕ) (marks : List Bool) (h pos : ℕ)
    → length txids ≡ length marks
    → below txids marks (suc h) pos
      ≡ below txids marks h (pos * 2) ++ below txids marks h (pos * 2 + 1)
below-halves txids marks h pos e =
    rw (segment-halves h pos txids, segment-halves h pos marks)
      (chosen-append _ _ _ _
        (length-take_same (2 ^ h) _ _ (length-drop_same (pos * 2 * 2 ^ h) txids marks e)))

pub below_beyond :
    (txids : List ℕ) (marks : List Bool) (h pos : ℕ)
    → length txids ≤ pos * 2 ^ h
    → below txids marks h pos ≡ []
unfolding chosen
below_beyond txids marks h pos l =
    rw (drop_beyond (pos * 2 ^ h) txids l, take_nil {A = ℕ} (2 ^ h)) refl

-- The loop for fParentOfMatch finds the marks below the node.
any : List Bool → Bool
any [] = false
any (b ∷ r) = b || any r

match_loop_lem :
    (marks : List Bool) (p count : ℕ)
    → p + count ≤ length marks
    → match_loop marks p count ≡ any (segment p count marks)
unfolding match_loop any
match_loop_lem marks p zero h = refl
match_loop_lem marks p (suc count) h =
    let (b, at_b, e) = drop_step p marks (omega (arith, h)) in
    rw (at_b, e, match_loop_lem marks (p + 1) count (omega (arith, h))) refl

chosen_none : (xs : List ℕ) (marks : List Bool) → any marks ≡ false → chosen xs marks ≡ []
unfolding any chosen
chosen_none [] marks e = refl
chosen_none (x ∷ xs) [] e = refl
chosen_none (x ∷ xs) (true ∷ marks) e = cc
chosen_none (x ∷ xs) (false ∷ marks) e = chosen_none xs marks e

parent_of_match_lem :
    (marks : List Bool) (h pos : ℕ)
    → pos * 2 ^ h < length marks
    → length marks + 2 ^ h ≤ 2 ^ 32
    → parent_of_match (length marks) marks h pos ≡ any (segment (pos * 2 ^ h) (2 ^ h) marks)
parent_of_match_lem marks h pos l b =
    let first : ℕ = pos * 2 ^ h in
    let next : (pos + 1) * 2 ^ h ≡ first + 2 ^ h = omega (arith, suc-mul pos (2 ^ h)) in
    let exact : first % 2 ^ 32 ≡ first = mod-eq_of_lt (omega (arith, l, b)) in
    let exact' : (first + 2 ^ h) % 2 ^ 32 ≡ first + 2 ^ h = mod-eq_of_lt (omega (arith, l, b)) in
    rw (next, exact, exact')
      (elim (Bool-cases (ltb (first + 2 ^ h) (length marks))) [
        | inl y ↦
            let count : first + 2 ^ h - first ≡ 2 ^ h = omega arith in
            rw (y, count) (match_loop_lem marks first (2 ^ h) (omega (arith, ltb→lt _ _ y)))
        | inr n ↦
            let size : length (drop first marks) ≡ length marks - first =
              length-drop_sub first marks in
            rw n (
              match_loop_lem marks first (length marks - first) (omega (arith, l))
              ∙ ap any (
                  take_beyond (length marks - first) (drop first marks) (omega (arith, size))
                  ∙ sym (
                      take_beyond (2 ^ h) (drop first marks)
                        (omega (arith, size, ltb-false→le _ _ n)))))
      ])

-- fParentOfMatch is false only where no transaction below the node is marked.
pub below_unmatched :
    (txids : List ℕ) (marks : List Bool) (h pos : ℕ)
    → pos * 2 ^ h < length marks
    → length marks + 2 ^ h ≤ 2 ^ 32
    → parent_of_match (length marks) marks h pos ≡ false
    → below txids marks h pos ≡ []
below_unmatched txids marks h pos l b e =
    chosen_none (segment (pos * 2 ^ h) (2 ^ h) txids) _
      (sym (parent_of_match_lem marks h pos l b) ∙ e)

-- At height 0, the one transaction below the node is there if it is marked.
pub below_leaf :
    (txids : List ℕ) (marks : List Bool) (pos : ℕ)
    → length txids ≡ length marks
    → pos < length txids
    → length marks + 1 ≤ 2 ^ 32
    → below txids marks 0 pos ≡ (
        if parent_of_match (length marks) marks 0 pos
        then or_zero (get_elem? txids pos) ∷ []
        else [])
unfolding chosen any
below_leaf txids marks pos e l s =
    let here : pos * 2 ^ 0 ≡ pos = omega arith in
    let (x, at_x, only_x) = get_elem?-drop pos txids l in
    let (b, at_b, only_b) = get_elem?-drop pos marks (omega (arith, l, e)) in
    let found : parent_of_match (length marks) marks 0 pos ≡ (b || false) =
      parent_of_match_lem marks 0 pos (omega (arith, here, l, e)) (omega (arith, s))
      ∙ ap (λ k. any (segment k 1 marks)) here
      ∙ ap any only_b in
    rw (found, here, only_x, only_b, at_x)
      (elim (Bool-cases b) [ inl y ↦ rw y refl | inr n ↦ rw n refl ])
