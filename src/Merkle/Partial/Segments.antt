-- ===== src/Merkle/Partial/Segments.antt =====
-- Parts of a list, by their position and length.
use native.Mathlib.Nat.{suc-mul, pow-suc}
use darcoin.Common.{
  ℕ, zero, suc, ◌+◌, ◌-◌, ◌*◌, ◌^◌, ◌≤◌, ◌<◌, ◌≡◌, refl, sym, ap, ◌∙◌, some, List, [], ◌∷◌, ◌++◌,
  length, take, drop, get_elem?, arith,
}

pub pow_double : (h : ℕ) → 2 ^ suc h ≡ 2 ^ h + 2 ^ h
pow_double h = omega (arith, pow-suc 2 h)

pub pow_step : (pos h : ℕ) → pos * 2 ^ suc h ≡ pos * 2 * 2 ^ h
pow_step pos h = grind (arith, pow_double h)

abbrev pub segment {ℓ} : {A : Type ℓ} → ℕ → ℕ → List A → List A
segment from count s = take count (drop from s)

pub drop_beyond {ℓ} : {A : Type ℓ} → (k : ℕ) (s : List A) → length s ≤ k → drop k s ≡ []
drop_beyond zero [] h = refl
drop_beyond (suc k) [] h = refl
drop_beyond zero (x ∷ s) h = absurd (omega (arith, h))
drop_beyond (suc k) (x ∷ s) h = drop_beyond k s (omega (arith, h))

pub take_nil {ℓ} : {A : Type ℓ} → (k : ℕ) → take {A = A} k [] ≡ []
take_nil zero = refl
take_nil (suc k) = refl

drop_nil {ℓ} : {A : Type ℓ} → (k : ℕ) → drop {A = A} k [] ≡ []
drop_nil zero = refl
drop_nil (suc k) = refl

take-add {ℓ} :
    {A : Type ℓ} → (b a : ℕ) (s : List A) → take (b + a) s ≡ take a s ++ take b (drop a s)
take-add b zero s = let e : b + 0 ≡ b = omega arith in rw e refl
take-add b (suc a) [] = take_nil (b + suc a) ∙ sym (take_nil b)
take-add b (suc a) (x ∷ s) =
    let e : b + suc a ≡ suc (b + a) = omega arith in rw e (ap (λ r. x ∷ r) (take-add b a s))

drop-drop {ℓ} : {A : Type ℓ} → (b a : ℕ) (s : List A) → drop b (drop a s) ≡ drop (b + a) s
drop-drop b zero s = let e : b + 0 ≡ b = omega arith in rw e refl
drop-drop b (suc a) [] = drop_nil b ∙ sym (drop_nil (b + suc a))
drop-drop b (suc a) (x ∷ s) =
    let e : b + suc a ≡ suc (b + a) = omega arith in rw e (drop-drop b a s)

-- The part below a node is the parts below its two children.
pub segment-halves {ℓ} :
    {A : Type ℓ}
    → (h pos : ℕ) (s : List A)
    → segment (pos * 2 ^ suc h) (2 ^ suc h) s
      ≡ segment (pos * 2 * 2 ^ h) (2 ^ h) s ++ segment ((pos * 2 + 1) * 2 ^ h) (2 ^ h) s
segment-halves h pos s =
    let from : pos * 2 ^ suc h ≡ pos * 2 * 2 ^ h = pow_step pos h in
    let next : 2 ^ h + pos * 2 * 2 ^ h ≡ (pos * 2 + 1) * 2 ^ h =
      omega (arith, suc-mul (pos * 2) (2 ^ h)) in
    let size : 2 ^ suc h ≡ 2 ^ h + 2 ^ h = pow_double h in
    rw (from, size)
      (take-add (2 ^ h) (2 ^ h) (drop (pos * 2 * 2 ^ h) s)
        ∙ ap (λ r. take (2 ^ h) (drop (pos * 2 * 2 ^ h) s) ++ take (2 ^ h) r)
            (drop-drop (2 ^ h) (pos * 2 * 2 ^ h) s ∙ ap (λ k. drop k s) next))

pub length-drop_same {ℓ κ} :
    {A : Type ℓ} {B : Type κ}
    → (k : ℕ) (s : List A) (t : List B) → length s ≡ length t
    → length (drop k s) ≡ length (drop k t)
length-drop_same zero s t e = e
length-drop_same (suc k) [] [] e = refl
length-drop_same (suc k) [] (y ∷ t) e = absurd (omega (arith, e))
length-drop_same (suc k) (x ∷ s) [] e = absurd (omega (arith, e))
length-drop_same (suc k) (x ∷ s) (y ∷ t) e = length-drop_same k s t (omega (arith, e))

pub length-take_same {ℓ κ} :
    {A : Type ℓ} {B : Type κ}
    → (k : ℕ) (s : List A) (t : List B) → length s ≡ length t
    → length (take k s) ≡ length (take k t)
length-take_same zero s t e = refl
length-take_same (suc k) [] [] e = refl
length-take_same (suc k) [] (y ∷ t) e = absurd (omega (arith, e))
length-take_same (suc k) (x ∷ s) [] e = absurd (omega (arith, e))
length-take_same (suc k) (x ∷ s) (y ∷ t) e = ap suc (length-take_same k s t (omega (arith, e)))

-- A leaf.
pub get_elem?-drop :
    {A : Type 0}
    → (k : ℕ) (s : List A) → k < length s
    → (x : A) × (get_elem? s k ≡ some x) × (segment k 1 s ≡ x ∷ [])
get_elem?-drop k [] h = absurd (omega (arith, h))
get_elem?-drop zero (x ∷ s) h = (x, refl, refl)
get_elem?-drop (suc k) (x ∷ s) h = get_elem?-drop k s (omega (arith, h))

pub drop_step :
    {A : Type 0}
    → (k : ℕ) (s : List A) → k < length s
    → (x : A) × (get_elem? s k ≡ some x) × (drop k s ≡ x ∷ drop (k + 1) s)
drop_step k [] h = absurd (omega (arith, h))
drop_step zero (x ∷ s) h = (x, refl, refl)
drop_step (suc k) (x ∷ s) h =
    let e : suc k + 1 ≡ suc (k + 1) = omega arith in rw e (drop_step k s (omega (arith, h)))

pub take_beyond {ℓ} : {A : Type ℓ} → (k : ℕ) (s : List A) → length s ≤ k → take k s ≡ s
take_beyond zero [] h = refl
take_beyond (suc k) [] h = refl
take_beyond zero (x ∷ s) h = absurd (omega (arith, h))
take_beyond (suc k) (x ∷ s) h = ap (λ r. x ∷ r) (take_beyond k s (omega (arith, h)))

pub length-drop_sub {ℓ} : {A : Type ℓ} → (k : ℕ) (s : List A) → length (drop k s) ≡ length s - k
length-drop_sub zero s = omega arith
length-drop_sub (suc k) [] = omega arith
length-drop_sub (suc k) (x ∷ s) = omega (arith, length-drop_sub k s)
