-- ===== src/Merkle/Partial/Soundness.antt =====
-- What ExtractMatches (main.cpp) can give of a partial tree that anyone may have made.
use darcoin.Common.{
  ℕ, zero, suc, ◌+◌, ◌-◌, ◌*◌, ◌/◌, ◌^◌, ◌≤◌, ◌<◌, ◌≡◌, ◌⊎◌, refl, sym, ap, subst, ◌∙◌, Bool, true,
  false, not, Bool-cases, inl, inr, some, List, [], ◌∷◌, ◌++◌, ltb, ltb→lt, ltb-false→le, ◌==◌,
  if◌then◌else◌, length, get_elem?, All, arith,
}
use darcoin.Tx.Check.{max_block_size}
use darcoin.Merkle.Partial.{
  PartialTree, Extraction, calc_tree_width, tree_height, or_zero, take_hash, calc_hash, descend,
  traverse_and_extract, accept, extract_matches,
}
use darcoin.Merkle.Partial.Segments.{pow_double, pow_step}
use darcoin.Merkle.Partial.Width.{calc_tree_width_iff, tree_height_lem}

abbrev IsElement : List ℕ → ℕ → Type 0
IsElement xs m = (i : ℕ) × (get_elem? xs i ≡ some m)

pub get_elem?-or_zero :
    (xs : List ℕ) (i : ℕ) → i < length xs → get_elem? xs i ≡ some (or_zero (get_elem? xs i))
get_elem?-or_zero [] i l = elim l [ ]
get_elem?-or_zero (x ∷ xs) zero l = refl
get_elem?-or_zero (x ∷ xs) (suc i) l = get_elem?-or_zero xs i (omega (arith, l))

All-snoc :
    {A : Type 0} → (P : A → Type 0) (xs : List A) (x : A) → All P xs → P x → All P (xs ++ x ∷ [])
All-snoc P [] x a p = (p, tt)
All-snoc P (y ∷ ys) x a p = (a.0, All-snoc P ys x a.1 p)

module _ (join : ℕ → ℕ → ℕ) where
  -- An extraction that has gone wrong stays so.
  abbrev KeepsBad : (Extraction → ℕ × Extraction) → Type 0
  KeepsBad f = (x : Extraction) → (f x).1.bad ≡ false → x.bad ≡ false

  take_hash-bad :
      (b : Bool) (hs : List ℕ) (x : Extraction) → (take_hash b hs x).1.bad ≡ false → x.bad ≡ false
  take_hash-bad b [] x h = absurd (ground (arith, h))
  take_hash-bad b (k ∷ r) x h = h

  descend-KeepsBad :
      (w : Bool) (left right : Extraction → ℕ × Extraction)
      → KeepsBad left
      → KeepsBad right
      → KeepsBad (descend join w left right)
  descend-KeepsBad true left right l r x h = l x (r ((left x).1) h)
  descend-KeepsBad false left right l r x h = l x h

  traverse-KeepsBad :
      (n h pos : ℕ) (l : List Bool) (x : Extraction)
      → (traverse_and_extract join n h pos l x).1.bad ≡ false
      → x.bad ≡ false
  unfolding traverse_and_extract
  traverse-KeepsBad n zero pos [] x g = absurd (ground (arith, g))
  traverse-KeepsBad n (suc h) pos [] x g = absurd (ground (arith, g))
  traverse-KeepsBad n zero pos (b ∷ r) x g = take_hash-bad b x.hashes (record x { bits = r }) g
  traverse-KeepsBad n (suc h) pos (false ∷ r) x g =
      take_hash-bad false x.hashes (record x { bits = r }) g
  traverse-KeepsBad n (suc h) pos (true ∷ r) x g =
      descend-KeepsBad (ltb (pos * 2 + 1) (calc_tree_width n h))
        (λ y. traverse_and_extract join n h (pos * 2) y.bits y)
        (λ y. traverse_and_extract join n h (pos * 2 + 1) y.bits y)
        (λ y. traverse-KeepsBad n h (pos * 2) y.bits y)
        (λ y. traverse-KeepsBad n h (pos * 2 + 1) y.bits y) (record x { bits = r }) g

-- Two pairs that have the same hash.
abbrev pub Collision : (ℕ → ℕ → ℕ) → Type 0
Collision join =
    (a : ℕ) × (b : ℕ) × (c : ℕ) × (d : ℕ) × (join a b ≡ join c d) × ¬ ((a ≡ c) × (b ≡ d))

same_or_Collision :
    (join : ℕ → ℕ → ℕ) (a b c d : ℕ) → join a b ≡ join c d → ((a ≡ c) × (b ≡ d)) ⊎ Collision join
same_or_Collision join a b c d e = elim (Bool-cases (a == c)) [
  | inr p ↦ inr (a, b, c, d, e, λ q. absurd (ground (arith, p, q.0)))
  | inl p ↦ elim (Bool-cases (b == d)) [
    | inr r ↦ inr (a, b, c, d, e, λ q. absurd (ground (arith, r, q.1)))
    | inl r ↦ inl (ground (arith, p), ground (arith, r))
  ]
]

module _ (join : ℕ → ℕ → ℕ) (txids : List ℕ) where
  abbrev n : ℕ
  n = length txids

  -- A traversal that gives the right hash matches transactions only.
  abbrev IsSound : ℕ → (Extraction → ℕ × Extraction) → Type 0
  IsSound hash f =
      (x : Extraction)
      → All (IsElement txids) x.vmatch
      → (f x).1.bad ≡ false
      → (f x).0 ≡ hash
      → All (IsElement txids) ((f x).1.vmatch) ⊎ Collision join

  take_hash-unmatched : (hs : List ℕ) (x : Extraction) → (take_hash false hs x).1.vmatch ≡ x.vmatch
  take_hash-unmatched [] x = refl
  take_hash-unmatched (k ∷ r) x = refl

  take_hash-matched :
      (hs : List ℕ) (x : Extraction) (pos : ℕ)
      → pos < length txids
      → All (IsElement txids) x.vmatch
      → (take_hash true hs x).1.bad ≡ false
      → (take_hash true hs x).0 ≡ or_zero (get_elem? txids pos)
      → All (IsElement txids) ((take_hash true hs x).1.vmatch)
  take_hash-matched [] x pos l a b e = absurd (ground (arith, b))
  take_hash-matched (k ∷ r) x pos l a b e =
      All-snoc (IsElement txids) x.vmatch k a (pos, get_elem?-or_zero txids pos l ∙ ap some (sym e))

  descend-IsSound :
      (w : Bool) (left right : Extraction → ℕ × Extraction) (a b : ℕ)
      → KeepsBad join right
      → IsSound a left
      → (w ≡ true → IsSound b right)
      → IsSound (if w then join a b else join a a) (descend join w left right)
  descend-IsSound true left right a b k l r x all good e = elim (same_or_Collision join _ _ a b e) [
    | inr found ↦ inr found
    | inl both ↦ elim (l x all (k ((left x).1) good) both.0) [
      | inr found ↦ inr found
      | inl more ↦ r refl ((left x).1) more good both.1
    ]
  ]
  descend-IsSound false left right a b k l r x all good e =
      elim (same_or_Collision join _ _ a a e) [
        | inr found ↦ inr found
        | inl both ↦ l x all good both.0
      ]

  traverse-IsSound :
      (h pos : ℕ) (l : List Bool)
      → pos * 2 ^ h < length txids
      → length txids + 2 ^ h ≤ 2 ^ 32
      → IsSound
          (calc_hash join (length txids) h pos txids)
          (λ x. traverse_and_extract join (length txids) h pos l x)
  unfolding traverse_and_extract calc_hash
  traverse-IsSound zero pos [] p s x all g e = inl all
  traverse-IsSound (suc h) pos [] p s x all g e = inl all
  traverse-IsSound zero pos (false ∷ r) p s x all g e = inl (
      subst (All (IsElement txids)) (sym (take_hash-unmatched x.hashes (record x { bits = r })))
        all)
  traverse-IsSound zero pos (true ∷ r) p s x all g e =
      inl (take_hash-matched x.hashes (record x { bits = r }) pos (omega (arith, p)) all g e)
  traverse-IsSound (suc h) pos (false ∷ r) p s x all g e = inl (
      subst (All (IsElement txids)) (sym (take_hash-unmatched x.hashes (record x { bits = r })))
        all)
  traverse-IsSound (suc h) pos (true ∷ r) p s x all g e =
      let small : length txids + 2 ^ h ≤ 2 ^ 32 = omega (arith, s, pow_double h) in
      descend-IsSound (ltb (pos * 2 + 1) (calc_tree_width (length txids) h))
        (λ y. traverse_and_extract join (length txids) h (pos * 2) y.bits y)
        (λ y. traverse_and_extract join (length txids) h (pos * 2 + 1) y.bits y)
        (calc_hash join (length txids) h (pos * 2) txids)
        (calc_hash join (length txids) h (pos * 2 + 1) txids)
        (λ y. traverse-KeepsBad join (length txids) h (pos * 2 + 1) y.bits y)
        (λ y. traverse-IsSound h (pos * 2) y.bits (omega (arith, p, pow_step pos h)) small y)
        (λ w y.
          traverse-IsSound h (pos * 2 + 1) y.bits
            ((calc_tree_width_iff (length txids) h (pos * 2 + 1) small).0 (ltb→lt _ _ w)) small y)
        (record x { bits = r }) all g e

-- What passes three tests.
passed :
    (a b c : Bool) (h root : ℕ) (v ms : List ℕ)
    → ◌≡◌ {A = ℕ × List ℕ}
        (if a then (0, v) else if b then (0, v) else if c then (0, v) else (h, v))
        (root, ms)
    → 0 < root
    → (a ≡ false) × (h ≡ root) × (v ≡ ms)
passed false false false h root v ms e p =
    (refl, ap (λ (q : ℕ × List ℕ). q.0) e, ap (λ (q : ℕ × List ℕ). q.1) e)
passed true b c h root v ms e p = absurd (omega (arith, ap (λ (q : ℕ × List ℕ). q.0) e, p))
passed false true c h root v ms e p = absurd (omega (arith, ap (λ (q : ℕ × List ℕ). q.0) e, p))
passed false false true h root v ms e p = absurd (omega (arith, ap (λ (q : ℕ × List ℕ). q.0) e, p))

accept-root :
    (t : PartialTree) (r : ℕ × Extraction) (root : ℕ) (ms : List ℕ)
    → accept t r ≡ (root, ms)
    → 0 < root
    → (r.1.bad ≡ false) × (r.0 ≡ root) × (r.1.vmatch ≡ ms)
accept-root t (h, x) root ms e p =
    passed x.bad (not ((length t.bits - length x.bits + 7) / 8 == (length t.bits + 7) / 8))
      (not (length x.hashes == 0)) h root x.vmatch ms e p

abbrev pub traversal : (ℕ → ℕ → ℕ) → PartialTree → ℕ × Extraction
traversal join t =
    traverse_and_extract join t.transactions (tree_height t.transactions) 0 t.bits
      (record { bits = t.bits; hashes = t.hashes; vmatch = []; bad = t.bad })

past :
    (a b c d : Bool) (q : ℕ × List ℕ) (root : ℕ) (ms : List ℕ)
    → (if a
        then (0, [])
        else if b
        then (0, [])
        else if c
        then (0, [])
        else if d
        then (0, [])
        else q)
      ≡ (root, ms)
    → 0 < root
    → (a ≡ false) × (b ≡ false) × (q ≡ (root, ms))
past false false false false q root ms e p = (refl, refl, e)
past true b c d q root ms e p = absurd (omega (arith, ap (λ (q : ℕ × List ℕ). q.0) e, p))
past false true c d q root ms e p = absurd (omega (arith, ap (λ (q : ℕ × List ℕ). q.0) e, p))
past false false true d q root ms e p = absurd (omega (arith, ap (λ (q : ℕ × List ℕ). q.0) e, p))
past false false false true q root ms e p =
    absurd (omega (arith, ap (λ (q : ℕ × List ℕ). q.0) e, p))

-- A root other than 0 comes from accept, behind the checks of the count of transactions.
pub extract_matches-root :
    (join : ℕ → ℕ → ℕ) (t : PartialTree) (root : ℕ) (ms : List ℕ)
    → extract_matches join t ≡ (root, ms)
    → 0 < root
    → (0 < t.transactions)
      × (t.transactions ≤ max_block_size / 60)
      × (accept t (traversal join t) ≡ (root, ms))
unfolding extract_matches
extract_matches-root join t root ms e p =
    let b =
      past (t.transactions == 0) (ltb (max_block_size / 60) t.transactions)
        (ltb t.transactions (length t.hashes)) (ltb (length t.bits) (length t.hashes))
        (accept t (traversal join t)) root ms e p in
    (ground (arith, b.0), ltb-false→le _ _ b.1, b.2)

-- The matches of a partial tree that gives the root that CalcHash computes.
pub extract_matches-IsElement :
    (join : ℕ → ℕ → ℕ) (txids : List ℕ) (t : PartialTree) (ms : List ℕ)
    → t.transactions ≡ length txids
    → 0 < calc_hash join (length txids) (tree_height (length txids)) 0 txids
    → extract_matches join t
      ≡ (calc_hash join (length txids) (tree_height (length txids)) 0 txids, ms)
    → All (λ m. (i : ℕ) × (get_elem? txids i ≡ some m)) ms ⊎ Collision join
extract_matches-IsElement join txids t ms count p e =
    let n : ℕ = length txids in
    let root : ℕ = calc_hash join n (tree_height n) 0 txids in
    let behind = extract_matches-root join t root ms e p in
    let good = accept-root t (traversal join t) root ms behind.2 p in
    let some_left : 0 < n = omega (arith, behind.0, count) in
    let few : n ≤ max_block_size / 60 = omega (arith, behind.1, count) in
    let high : (n ≤ 2 ^ tree_height n) × (2 ^ tree_height n < 2 * n) =
      tree_height_lem n some_left (omega (arith, few)) in
    let sound : IsSound join txids root
        (λ x. traverse_and_extract join t.transactions (tree_height t.transactions) 0 t.bits x) =
      subst
        (λ j. IsSound join txids root (λ x. traverse_and_extract join j (tree_height j) 0 t.bits x))
        (sym count)
        (traverse-IsSound join txids (tree_height n) 0 t.bits (omega (arith, some_left))
          (omega (arith, high.1, few))) in
    subst (λ v. All (IsElement txids) v ⊎ Collision join) good.2
      (sound (record { bits = t.bits; hashes = t.hashes; vmatch = []; bad = t.bad }) tt good.0
        good.1)
