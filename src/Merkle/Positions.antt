-- ===== src/Merkle/Positions.antt =====
-- Where the levels of a Merkle tree stand in the vector that holds them all.
use darcoin.Common.{
  ℕ, zero, suc, ◌+◌, ◌<◌, ◌≡◌, refl, subst, ◌∙◌, some, List, [], ◌∷◌, ◌++◌, length, get_elem?,
  arith,
}
use darcoin.Merkle.{back}

-- The list stands in the tree from the position on.
abbrev pub Reads : List ℕ → ℕ → List ℕ → Type 0
Reads tree k [] = Unit {0}
Reads tree k (x ∷ r) = (get_elem? tree k ≡ some x) × Reads tree (k + 1) r

pub get_elem?-append :
    (xs ys : List ℕ) (i x : ℕ) → get_elem? xs i ≡ some x → get_elem? (xs ++ ys) i ≡ some x
get_elem?-append [] ys i x h = cc
get_elem?-append (y ∷ xs) ys zero x h = h
get_elem?-append (y ∷ xs) ys (suc i) x h = get_elem?-append xs ys i x h

pub Reads-append :
    (tree more : List ℕ) (k : ℕ) (xs : List ℕ) → Reads tree k xs → Reads (tree ++ more) k xs
Reads-append tree more k [] h = tt
Reads-append tree more k (x ∷ r) h =
    (get_elem?-append tree more k x h.0, Reads-append tree more (k + 1) r h.1)

pub Reads-suc :
    (t : ℕ) (tree : List ℕ) (k : ℕ) (xs : List ℕ) → Reads tree k xs → Reads (t ∷ tree) (suc k) xs
Reads-suc t tree k [] h = tt
Reads-suc t tree k (x ∷ r) h =
    (h.0, subst (λ n. Reads (t ∷ tree) n r) (omega arith) (Reads-suc t tree (k + 1) r h.1))

pub Reads-self : (xs : List ℕ) → Reads xs 0 xs
Reads-self [] = tt
Reads-self (x ∷ r) = (refl, Reads-suc x r 0 r (Reads-self r))

pub Reads-end : (tree xs : List ℕ) → Reads (tree ++ xs) (length tree) xs
Reads-end [] xs = Reads-self xs
Reads-end (t ∷ tree) xs = Reads-suc t (tree ++ xs) (length tree) xs (Reads-end tree xs)

pub Reads-get :
    (tree : List ℕ) (k : ℕ) (xs : List ℕ) (i x : ℕ)
    → Reads tree k xs
    → get_elem? xs i ≡ some x
    → get_elem? tree (k + i) ≡ some x
Reads-get tree k [] i x h e = cc
Reads-get tree k (y ∷ r) zero x h e = subst (λ n. get_elem? tree n ≡ some x) (omega arith) (h.0 ∙ e)
Reads-get tree k (y ∷ r) (suc i) x h e =
    subst (λ n. get_elem? tree n ≡ some x) (omega arith) (Reads-get tree (k + 1) r i x h.1 e)

pub get_elem?_lem : (xs : List ℕ) (i : ℕ) → i < length xs → (x : ℕ) × (get_elem? xs i ≡ some x)
get_elem?_lem [] i h = absurd (omega arith)
get_elem?_lem (x ∷ r) zero h = (x, refl)
get_elem?_lem (x ∷ r) (suc i) h = get_elem?_lem r i (omega arith)

pub get_elem?-bound : (xs : List ℕ) (i x : ℕ) → get_elem? xs i ≡ some x → i < length xs
get_elem?-bound [] i x h = cc
get_elem?-bound (y ∷ r) zero x h = omega arith
get_elem?-bound (y ∷ r) (suc i) x h = omega (arith, get_elem?-bound r i x h)

pub back_lem :
    (tree : List ℕ) (k x : ℕ) → get_elem? tree k ≡ some x → k + 1 ≡ length tree → back tree ≡ x
back_lem [] k x h e = cc
back_lem (t ∷ []) zero x h e = ground (arith, h)
back_lem (t ∷ []) (suc k) x h e = absurd (cc h)
back_lem (t ∷ u ∷ r) zero x h e = absurd (omega arith)
back_lem (t ∷ u ∷ r) (suc k) x h e = back_lem (u ∷ r) k x h (omega arith)
