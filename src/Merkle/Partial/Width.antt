-- ===== src/Merkle/Partial/Width.antt =====
-- The levels of the tree of CPartialMerkleTree (main.h): which positions they have.
use native.Mathlib.Nat.{pow-suc, suc-mul, mod-eq_of_lt, le-div_iff_mul-le}
use darcoin.Common.Bits.{pow-pos}
use darcoin.Common.{
  ℕ, zero, suc, ◌+◌, ◌-◌, ◌*◌, ◌%◌, ◌^◌, ◌≤◌, ◌<◌, ◌≡◌, ◌↔◌, ap, Bool-cases, inl, inr, ltb, ltb→lt,
  le_or_lt, subst, ltb-false→le, arith,
}
use darcoin.Merkle.Partial.{calc_tree_width, height_loop, tree_height}

-- The level has a position where its first transaction is there.
pub calc_tree_width_iff :
    (n h pos : ℕ) → n + 2 ^ h ≤ 2 ^ 32 → (pos < calc_tree_width n h) ↔ (pos * 2 ^ h < n)
calc_tree_width_iff n h pos l =
    let exact : (n + 2 ^ h - 1) % 2 ^ 32 ≡ n + 2 ^ h - 1 =
      mod-eq_of_lt (omega (arith, l, pow-pos h)) in
    let div = le-div_iff_mul-le {k = 2 ^ h} {x = suc pos} {y = n + 2 ^ h - 1} (pow-pos h) in
    rw exact (
      (λ p. omega (arith, div.0 p, pow-pos h, suc-mul pos (2 ^ h))),
      (λ p. div.1 (omega (arith, p, pow-pos h, suc-mul pos (2 ^ h)))),
    )

double : (h : ℕ) → 2 ^ (h + 1) ≡ 2 * 2 ^ h
double h =
    let one : h + 1 ≡ suc h = omega arith in
    let e : 2 ^ (h + 1) ≡ 2 ^ suc h = ap (λ k. 2 ^ k) one in omega (arith, e, pow-suc 2 h)

abbrev IsHeight : ℕ → ℕ → Type 0
IsHeight n h = (n ≤ 2 ^ h) × (2 ^ h < 2 * n)

height_loop_lem :
    (fuel n h : ℕ)
    → n < 2 ^ (fuel + h)
    → 2 ^ h < 2 * n
    → 3 * n ≤ 2 ^ 32
    → IsHeight n (height_loop fuel n h)
unfolding height_loop
height_loop_lem zero n h l p b =
    let same : 2 ^ (0 + h) ≡ 2 ^ h = ap (λ k. 2 ^ k) (omega arith) in (omega (arith, l, same), p)
height_loop_lem (suc fuel) n h l p b = elim (Bool-cases (ltb 1 (calc_tree_width n h))) [
  | inl y ↦ rw y (
      height_loop_lem fuel n (h + 1) (subst (λ k. n < 2 ^ k) (omega arith) l)
        (omega
          (arith, (calc_tree_width_iff n h 1 (omega (arith, p, b))).0 (ltb→lt _ _ y), double h))
        b)
  | inr k ↦ rw k (
    elim (le_or_lt n (2 ^ h)) [
      | inl low ↦ low
      | inr high ↦ absurd (
          omega (
            arith,
            (calc_tree_width_iff n h 1 (omega (arith, p, b))).1 (omega (arith, high)),
            ltb-false→le 1 (calc_tree_width n h) k,
          ))
    ],
    p,
  )
]

-- At the height that the loop ends with, one node covers all transactions, and one level below it
-- does not.
pub tree_height_lem :
    (n : ℕ) → 0 < n → 3 * n ≤ 2 ^ 32 → (n ≤ 2 ^ tree_height n) × (2 ^ tree_height n < 2 * n)
unfolding tree_height
tree_height_lem n p b = height_loop_lem 32 n 0 (omega (arith, b)) (omega (arith, p)) b
