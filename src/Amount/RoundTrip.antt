-- ===== src/Amount/RoundTrip.antt =====
-- Amounts come back from their compressed form, up to a bound that lies below MAX_MONEY.
use darcoin.Common.{
  ℕ, zero, suc, ◌+◌, ◌-◌, ◌*◌, ◌/◌, ◌%◌, ◌≤◌, ◌<◌, ◌≡◌, refl, ap, ◌∙◌, ◌≢◌, ◌⊎◌, inl, inr,
  Bool-cases, ◌==◌, arith,
}
use native.Mathlib.Nat.{zero-add}
use darcoin.Amount.{
  u64, strip_zeros, pack_amount, compress_amount, scale, unpack_amount, decompress_amount,
}

scale_last : (e n : ℕ) → scale (suc e) n ≡ scale e n * 10 % u64
unfolding scale
scale_last zero n = refl
scale_last (suc e) n = scale_last e (n * 10 % u64)

-- What the loop, with some rounds left, has done to `n` when it stops with the pair `r`.
record Stripped (rounds n e : ℕ) (r : ℕ × ℕ) : Type 0 where
  j : ℕ
  count : r.1 ≡ e + j
  back : scale j r.0 ≡ n
  bounded : j ≤ rounds
  last : (r.0 % 10 ≢ 0) ⊎ (j ≡ rounds)
  positive : 0 < r.0
  smaller : ((j ≡ 0) × (r.0 ≡ n)) ⊎ (r.0 * 10 ≤ n)

Stripped-next :
    (rounds n e : ℕ) (r : ℕ × ℕ)
    → n % 10 ≡ 0
    → n < u64
    → Stripped rounds (n / 10) (e + 1) r
    → Stripped (suc rounds) n e r
Stripped-next rounds n e r z h s = record {
  j = suc s.j;
  count = omega arith;
  back = omega (arith, scale_last s.j r.0);
  bounded = omega arith;
  last = ground arith;
  positive = s.positive;
  smaller = inr (omega arith);
}

strip_zeros-Stripped :
    (rounds n e : ℕ) → 0 < n → n < u64 → Stripped rounds n e (strip_zeros rounds n e)
unfolding strip_zeros
strip_zeros-Stripped zero n e p h =
    unfold scale in
    record {
      j = 0;
      count = omega arith;
      back = refl;
      bounded = omega arith;
      last = inr refl;
      positive = p;
      smaller = inl (refl, refl);
    }
strip_zeros-Stripped (suc rounds) n e p h = elim (Bool-cases (n % 10 == 0)) [
  | inl z ↦ rw z (
      Stripped-next rounds n e _ (ground arith) h
        (strip_zeros-Stripped rounds (n / 10) (e + 1) (ground arith) (omega arith)))
  | inr z ↦ rw z (
      unfold scale in
      record {
        j = 0;
        count = omega arith;
        back = refl;
        bounded = omega arith;
        last = inl (ground arith);
        positive = p;
        smaller = inl (refl, refl);
      })
]

-- The two packed forms where nothing wraps.
pack_short :
    (m e : ℕ)
    → e < 9
    → m % 10 ≢ 0
    → 9 * m + m % 10 + e < u64 + 9
    → pack_amount (m, e) ≡ (m / 10 * 9 + (m % 10 - 1)) * 10 + e + 1
unfolding pack_amount
pack_short m e h last fits = ground arith

pack_long : (m : ℕ) → 0 < m → m * 10 < u64 → pack_amount (m, 9) ≡ (m - 1) * 10 + 9 + 1
unfolding pack_amount
pack_long m p fits = ground arith

-- The number after the loop is found again.
abbrev Unpacks : ℕ → ℕ → ℕ → Type 0
Unpacks x m e = (0 < x) × ((x - 1) % 10 ≡ e) × (unpack_amount (x - 1) ≡ m)

unpack_short :
    (m e : ℕ)
    → e < 9
    → m % 10 ≢ 0
    → m < u64
    → Unpacks ((m / 10 * 9 + (m % 10 - 1)) * 10 + e + 1) m e
unfolding unpack_amount
unpack_short m e h last fits =
    let y : ℕ = m / 10 * 9 + (m % 10 - 1) in
    let x : ℕ = y * 10 + e in
    let low : x % 10 ≡ e = omega arith in
    let high : x / 10 ≡ y = omega arith in
    let q : y / 9 ≡ m / 10 = omega arith in
    let r : y % 9 ≡ m % 10 - 1 = omega arith in (omega arith, omega arith, ground arith)

unpack_long : (m : ℕ) → 0 < m → Unpacks ((m - 1) * 10 + 9 + 1) m 9
unfolding unpack_amount
unpack_long m p = ground arith

unpack-pack :
    (m e : ℕ)
    → 0 < m
    → e ≤ 9
    → (m % 10 ≢ 0) ⊎ (e ≡ 9)
    → m * 10 < u64 ⊎ ((e ≡ 0) × (9 * m + m % 10 < u64 + 9))
    → Unpacks (pack_amount (m, e)) m e
unpack-pack m e p h last fits = elim (Bool-cases (e == 9)) [
  | inl nine ↦
      let e9 : e ≡ 9 = ground arith in rw e9 (rw (pack_long m p (ground arith)) (unpack_long m p))
  | inr less ↦
      let d : m % 10 ≢ 0 = ground arith in
      rw (pack_short m e (ground arith) d (ground arith))
        (unpack_short m e (ground arith) d (ground arith))
]

decompress-Unpacks : (x m e : ℕ) → Unpacks x m e → decompress_amount x ≡ scale e m
unfolding decompress_amount
decompress-Unpacks x m e u = ground arith

decompress-Stripped :
    (n : ℕ) (r : ℕ × ℕ)
    → n < u64
    → (n % 10 ≡ 0) ⊎ (9 * n + n % 10 < u64 + 9)
    → Stripped 9 n 0 r
    → decompress_amount (pack_amount r) ≡ n
decompress-Stripped n (m, e) h fits s =
    decompress-Unpacks _ m e (
      unpack-pack m e s.positive (omega (arith, s.count, s.bounded))
        (ground (arith, s.count, s.last)) (ground (arith, s.count, s.smaller, s.last, s.bounded)))
    ∙ (rw (s.count, zero-add) s.back)

-- DecompressAmount undoes CompressAmount on every uint64_t that ends in the digit 0 or for which
-- 9 * n + n % 10 - 9 fits 64 bits.
pub decompress-compress_amount :
    (n : ℕ)
    → n < u64
    → (n % 10 ≡ 0) ⊎ (9 * n + n % 10 < u64 + 9)
    → decompress_amount (compress_amount n) ≡ n
unfolding compress_amount
decompress-compress_amount n h fits = elim (Bool-cases (n == 0)) [
  | inl z ↦ rw z (unfold decompress_amount in ground arith)
  | inr nz ↦ rw nz (decompress-Stripped n _ h fits (strip_zeros-Stripped 9 n 0 (ground arith) h))
]

-- Beyond that bound.
scale_even : (e n : ℕ) → scale (suc e) n % 2 ≡ 0
scale_even e n = omega (arith, scale_last e n)

-- A number that is read with no zeros after it is one whose packed form fits.
unpack_zero :
    (x : ℕ) → x < u64 → x % 10 ≡ 0 → 9 * unpack_amount x + unpack_amount x % 10 ≤ x + 9 + 1
unfolding unpack_amount
unpack_zero x h z =
    let y : ℕ = x / 10 in
    let r : (y / 9 * 10 % u64 + (y % 9 + 1)) % u64 ≡ y / 9 * 10 + (y % 9 + 1) = omega arith in
    let d : (y / 9 * 10 + (y % 9 + 1)) % 10 ≡ y % 9 + 1 = omega arith in ground arith

scale-ne_odd : (e m n : ℕ) → n % 2 ≡ 1 → (e ≡ 0 → m ≢ n) → scale e m ≢ n
scale-ne_odd zero m n odd h = unfold scale in h refl
scale-ne_odd (suc e) m n odd h =
    λ q. absurd (omega (arith, scale_even e m, ap (λ (t : ℕ). t % 2) q))

unpack-ne_big :
    (x n : ℕ) → x + 1 < u64 → u64 + 9 ≤ 9 * n + n % 10 → x % 10 ≡ 0 → unpack_amount x ≢ n
unpack-ne_big x n h big z q =
    let r : unpack_amount x % 10 ≡ n % 10 = ap (λ (t : ℕ). t % 10) q in
    omega (arith, unpack_zero x (omega arith) z)

decompress-suc : (x : ℕ) → decompress_amount (suc x) ≡ scale (x % 10) (unpack_amount x)
unfolding decompress_amount
decompress-suc x = ground arith

decompress-ne_big :
    (x n : ℕ) → x < u64 → n % 2 ≡ 1 → u64 + 9 ≤ 9 * n + n % 10 → decompress_amount x ≢ n
decompress-ne_big zero n h odd big = unfold decompress_amount in λ q. omega arith
decompress-ne_big (suc x) n h odd big =
    rw decompress-suc
      (scale-ne_odd (x % 10) (unpack_amount x) n odd (λ z. unpack-ne_big x n (omega arith) big z))

compress_amount-bounded : (n : ℕ) → compress_amount n < u64
unfolding compress_amount pack_amount
compress_amount-bounded n = elim (Bool-cases (n == 0)) [
  | inl z ↦ rw z (omega arith)
  | inr nz ↦ rw nz (ground arith)
]

-- The bound is exact for odd amounts: above it the compressed form wraps around, and another amount
-- comes back. MAX_MONEY lies above the bound.
pub decompress-compress_amount_wraps :
    (n : ℕ) → n % 2 ≡ 1 → u64 + 9 ≤ 9 * n + n % 10 → decompress_amount (compress_amount n) ≢ n
decompress-compress_amount_wraps n odd big =
    decompress-ne_big (compress_amount n) n (compress_amount-bounded n) odd big
