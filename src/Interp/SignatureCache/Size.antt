-- ===== src/Interp/SignatureCache/Size.antt =====
-- The signature cache (script.cpp) stays within -maxsigcachesize, but for the entry that is added.
use mathlib.Core.Option.{some-injective}
use darcoin.Common.{
  ap, sym, ◌∙◌, ℕ, zero, suc, ◌+◌, ◌≤◌, ◌≡◌, refl, Bool-cases, Option-cases, some, inl, inr, List,
  [], ◌∷◌, ltb, ltb→lt, ltb-false→le, length, arith, pos,
}
use darcoin.Interp.SignatureCache.{SigData, eq, lt, insert, erase_from, evict, evict_loop, set}

length-insert : (k : SigData) (s : List SigData) → length (insert k s) ≤ length s + 1
unfolding insert
length-insert k [] = omega arith
length-insert k (x ∷ r) = elim (Bool-cases (eq k x)) [
  | inl y ↦ rw y (omega arith)
  | inr n ↦ elim (Bool-cases (lt k x)) [
    | inl y ↦ rw (n, y) (omega arith)
    | inr m ↦ rw (n, m) (omega (arith, length-insert k r))
  ]
]

length-erase_from :
    (n : ℕ) (s s' : List SigData) → erase_from n s ≡ some s' → suc (length s') ≡ length s
unfolding erase_from
length-erase_from n [] s' e = cc
length-erase_from n (x ∷ r) s' e = elim (Bool-cases (ltb x.hash n)) [
  | inr m ↦ ap (λ (t : List SigData). suc (length t)) (sym (some-injective _ _ (rw m at e)))
  | inl y ↦ elim (Option-cases (erase_from n r)) [
    | inl d ↦ absurd (cc (rw (y, d) at e))
    | inr (t, d) ↦
        ap (λ (u : List SigData). suc (length u)) (sym (some-injective (x ∷ t) s' (rw (y, d) at e)))
        ∙ ap suc (length-erase_from n r t d)
  ]
]

-- Each round of the eviction takes one element off.
length-evict :
    (n : ℕ) (x : SigData) (r : List SigData) → suc (length (evict n (x ∷ r))) ≡ length (x ∷ r)
unfolding evict
length-evict n x r = elim (Option-cases (erase_from n (x ∷ r))) [
  | inl d ↦ rw d refl
  | inr (t, d) ↦ rw d (length-erase_from n (x ∷ r) t d)
]

length-evict_loop :
    (fuel : ℕ) (random : ℕ → ℕ) (most : ℕ) (s : List SigData)
    → length s ≤ fuel
    → length (evict_loop fuel random most s) ≤ most
unfolding evict_loop
length-evict_loop zero random most s h = omega (arith, h)
length-evict_loop (suc k) random most [] h = elim (Bool-cases (ltb most 0)) [
  | inl y ↦ absurd (omega (arith, ltb→lt _ _ y))
  | inr n ↦ rw n (omega arith)
]
length-evict_loop (suc k) random most (x ∷ r) h = elim (Bool-cases (ltb most (suc (length r)))) [
  | inl y ↦ rw y (
      length-evict_loop k random most (evict (random (suc (length r))) (x ∷ r))
        (omega (arith, h, length-evict (random (suc (length r))) x r)))
  | inr n ↦ rw n (omega (arith, ltb-false→le _ _ n))
]

-- Whatever the random hashes and however large the set was, Set under a positive -maxsigcachesize
-- ends, and leaves at most one element more than that.
pub length-set :
    (random : ℕ → ℕ) (most : ℕ) (k : SigData) (s : List SigData)
    → length (set random (pos (suc most)) k s) ≤ suc most + 1
unfolding set
length-set random most k s = omega (
  arith,
  length-insert k (evict_loop (length s) random (suc most) s),
  length-evict_loop (length s) random (suc most) s (omega arith),
)
