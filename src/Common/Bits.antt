-- ===== src/Common/Bits.antt =====
-- The bit operations of C++ on unsigned numbers: masks and joined fields as arithmetic.
use Prim.Native.Nat.{
  ℕ, zero, suc, ◌+◌, ◌-◌, ◌*◌, ◌^◌, ◌/◌, ◌%◌, ◌≤◌, ◌<◌, min, max, digits, bit_and, bit_or, bit_xor,
  differ, bit_and-bitwise, bit_or-bitwise, bit_xor-bitwise,
}
use mathlib.Core.Path.{◌≡◌, refl, ap}
use mathlib.Core.Bool.{Bool, true, ◌&&◌}
use darcoin.Common.Tests.{◌==◌}
use native.Mathlib.Omega.{arith}

-- The digits do not depend on the fuel, where it is at least the number.
digits_fuel :
    (rest : ℕ → ℕ) (op : ℕ → ℕ → ℕ) (p q x y : ℕ)
    → x ≤ p
    → x ≤ q
    → digits rest op p x y ≡ digits rest op q x y
digits_fuel rest op zero zero zero y below under = refl
digits_fuel rest op zero (suc q) zero y below under = refl
digits_fuel rest op (suc p) zero zero y below under = refl
digits_fuel rest op (suc p) (suc q) zero y below under = refl
digits_fuel rest op zero q (suc x) y below under = absurd (omega arith)
digits_fuel rest op (suc p) zero (suc x) y below under = absurd (omega arith)
digits_fuel rest op (suc p) (suc q) (suc x) y below under =
    let halves : digits rest op p (suc x / 2) (y / 2) ≡ digits rest op q (suc x / 2) (y / 2) =
      digits_fuel rest op p q (suc x / 2) (y / 2) (omega arith) (omega arith) in
    ap (λ (high : ℕ). high * 2 + op (suc x % 2) (y % 2)) halves

digits_round :
    (rest : ℕ → ℕ) (op : ℕ → ℕ → ℕ) (x y : ℕ)
    → digits rest op (suc x) (suc x) y
      ≡ digits rest op (suc x / 2) (suc x / 2) (y / 2) * 2 + op (suc x % 2) (y % 2)
digits_round rest op x y =
    let halves : digits rest op x (suc x / 2) (y / 2)
        ≡ digits rest op (suc x / 2) (suc x / 2) (y / 2) =
      digits_fuel rest op x (suc x / 2) (suc x / 2) (y / 2) (omega arith) (omega arith) in
    ap (λ (high : ℕ). high * 2 + op (suc x % 2) (y % 2)) halves

-- The lowest digit, and the rest.
and_step : (x y : ℕ) → bit_and x y ≡ min (x % 2) (y % 2) + 2 * bit_and (x / 2) (y / 2)
and_step zero y = simp bit_and-bitwise (omega arith)
and_step (suc x) y = simp bit_and-bitwise (omega (arith, digits_round (λ _. 0) min x y))

or_step : (x y : ℕ) → bit_or x y ≡ max (x % 2) (y % 2) + 2 * bit_or (x / 2) (y / 2)
or_step zero y = simp bit_or-bitwise (omega arith)
or_step (suc x) y = simp bit_or-bitwise (omega (arith, digits_round (λ z. z) max x y))

and_zero_below : (n a : ℕ) → a ≤ n → bit_and a 0 ≡ 0
and_zero_below n zero h = refl
and_zero_below zero (suc a) h = absurd (omega arith)
and_zero_below (suc n) (suc a) h =
    omega (arith, and_step (suc a) 0, and_zero_below n (suc a / 2) (omega arith))

or_zero_below : (n a : ℕ) → a ≤ n → bit_or a 0 ≡ a
or_zero_below n zero h = refl
or_zero_below zero (suc a) h = absurd (omega arith)
or_zero_below (suc n) (suc a) h =
    omega (arith, or_step (suc a) 0, or_zero_below n (suc a / 2) (omega arith))

-- a & 1, a & 0x7f and a & 0x80
pub bit_and-one : (a : ℕ) → bit_and a 1 ≡ a % 2
bit_and-one a = omega (arith, and_step a 1, and_zero_below (a / 2) (a / 2) (omega arith))

and_seven_bits : (a m : ℕ) → bit_and a (2 * m + 1) ≡ 2 * bit_and (a / 2) m + a % 2
and_seven_bits a m =
    let half : (2 * m + 1) / 2 ≡ m = omega arith in
    let odd : (2 * m + 1) % 2 ≡ 1 = omega arith in ground (arith, half, odd, and_step a (2 * m + 1))

pub bit_and-7f : (a : ℕ) → bit_and a 0x7f ≡ a % 128
bit_and-7f a = omega (
  arith,
  and_seven_bits a 63,
  and_seven_bits (a / 2) 31,
  and_seven_bits (a / 2 / 2) 15,
  and_seven_bits (a / 2 / 2 / 2) 7,
  and_seven_bits (a / 2 / 2 / 2 / 2) 3,
  and_seven_bits (a / 2 / 2 / 2 / 2 / 2) 1,
  bit_and-one (a / 2 / 2 / 2 / 2 / 2 / 2),
)

pub bit_or_even : (q r : ℕ) → bit_or (2 * q) r ≡ 2 * bit_or q (r / 2) + r % 2
bit_or_even q r =
    let half : 2 * q / 2 ≡ q = omega arith in
    let even : 2 * q % 2 ≡ 0 = omega arith in ground (arith, half, even, or_step (2 * q) r)

-- (q << 7) | r, where r has seven bits
pub bit_or_seven : (q r : ℕ) → r < 128 → bit_or (q * 128) r ≡ q * 128 + r
bit_or_seven q r h =
    let e : q * 128 ≡ 2 * (2 * (2 * (2 * (2 * (2 * (2 * q)))))) = omega arith in
    let last : r / 2 / 2 / 2 / 2 / 2 / 2 / 2 ≡ 0 = omega arith in
    rw e (
      omega (
        arith,
        bit_or_even (2 * (2 * (2 * (2 * (2 * (2 * q)))))) r,
        bit_or_even (2 * (2 * (2 * (2 * (2 * q))))) (r / 2),
        bit_or_even (2 * (2 * (2 * (2 * q)))) (r / 2 / 2),
        bit_or_even (2 * (2 * (2 * q))) (r / 2 / 2 / 2),
        bit_or_even (2 * (2 * q)) (r / 2 / 2 / 2 / 2),
        bit_or_even (2 * q) (r / 2 / 2 / 2 / 2 / 2),
        bit_or_even q (r / 2 / 2 / 2 / 2 / 2 / 2),
        ap (bit_or q) last,
        or_zero_below q q (omega arith),
      ))

-- Over a small range, check every value by evaluation.
all_below : ℕ → (ℕ → Bool) → Bool
all_below zero p = true
all_below (suc n) p = p n && all_below n p

all_below→eq :
    (n : ℕ) (f g : ℕ → ℕ) (x : ℕ) → all_below n (λ i. f i == g i) ≡ true → x < n → f x ≡ g x
unfolding all_below
all_below→eq zero f g x h lt = absurd (omega arith)
all_below→eq (suc n) f g x h lt = ground (arith, all_below→eq n f g x)

-- g | 0x80 on a group of seven bits, and c & 0x80 on a byte
pub bit_or-80 : (g : ℕ) → g < 128 → bit_or g 0x80 ≡ g + 128
unfolding all_below
bit_or-80 g h = all_below→eq 128 (λ i. bit_or i 0x80) (λ i. i + 128) g refl h

pub bit_and-80 : (c : ℕ) → c < 256 → bit_and c 0x80 ≡ c / 128 * 128
unfolding all_below
bit_and-80 c h = all_below→eq 256 (λ i. bit_and i 0x80) (λ i. i / 128 * 128) c refl h

pub bit_or-zero : (a : ℕ) → bit_or a 0 ≡ a
bit_or-zero a = or_zero_below a a (omega arith)

xor_step : (x y : ℕ) → bit_xor x y ≡ differ (x % 2) (y % 2) + 2 * bit_xor (x / 2) (y / 2)
xor_step zero y = simp bit_xor-bitwise (omega arith)
xor_step (suc x) y = simp bit_xor-bitwise (omega (arith, digits_round (λ z. z) differ x y))

differ_zero : (a : ℕ) → differ a 0 ≡ a
differ_zero zero = refl
differ_zero (suc a) = refl

xor_zero_below : (n a : ℕ) → a ≤ n → bit_xor a 0 ≡ a
xor_zero_below n zero h = refl
xor_zero_below zero (suc a) h = absurd (omega arith)
xor_zero_below (suc n) (suc a) h =
    omega (
      arith,
      xor_step (suc a) 0,
      differ_zero (suc a % 2),
      xor_zero_below n (suc a / 2) (omega arith),
    )

differ_one : (a : ℕ) → a < 2 → differ a 1 ≡ 1 - a
differ_one zero h = refl
differ_one (suc zero) h = refl
differ_one (suc (suc a)) h = absurd (omega arith)

-- a ^ 1: the other one of two neighbours
pub bit_xor-one : (a : ℕ) → bit_xor a 1 ≡ a / 2 * 2 + (1 - a % 2)
bit_xor-one a = omega (
  arith,
  xor_step a 1,
  differ_one (a % 2) (omega arith),
  xor_zero_below (a / 2) (a / 2) (omega arith),
)

pub bit_and-ff : (a : ℕ) → bit_and a 0xff ≡ a % 256
bit_and-ff a = omega (arith, and_seven_bits a 127, bit_and-7f (a / 2))

pub pow-pos : (h : ℕ) → 0 < 2 ^ h
pow-pos zero = omega arith
pow-pos (suc h) = omega (arith, pow-pos h)
