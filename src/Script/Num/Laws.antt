-- ===== src/Script/Num/Laws.antt =====
-- What a script number is written as is read back, within the four bytes that a number may have.
use Prim.Native.Nat.{bit_and, bit_or}
use native.Mathlib.Nat.{pow-suc}
use darcoin.Common.{
  ℕ, zero, suc, ◌+◌, ◌-◌, ◌*◌, ◌/◌, ◌%◌, ◌^◌, ◌≤◌, ◌<◌, ◌≡◌, refl, ap, ◌≢◌, ◌⊎◌, inl, inr, Bool,
  Bool-cases, ltb→lt, true, false, not, none, some, [], ◌∷◌, ℤ, pos, negsuc, pos_part, neg_part,
  ltb, ◌==◌, if◌then◌else◌, ltb_ℤ, length, Bytes, All, arith,
}
use darcoin.Common.Bits.{bit_and-80, bit_or-80, bit_and-ff}
use darcoin.Script.Num.{
  magnitude_bytes, put_sign, serialize, from_le, last_byte, minus, set_vch, script_num,
}

-- What the loop over the absolute value leaves: the value again, in bytes of which the last is not 0.
record Magnitude (n : ℕ) (b : Bytes) : Type 0 where
  value : from_le b ≡ n
  bytes : All (λ c. c < 256) b
  top : ((b ≡ []) × (n ≡ 0)) ⊎ (1 ≤ last_byte b)

Magnitude-cons : (n : ℕ) (b : Bytes) → n ≢ 0 → Magnitude (n / 256) b → Magnitude n ((n % 256) ∷ b)
unfolding from_le
Magnitude-cons n [] h m = ground (arith, m.value)
Magnitude-cons n (c ∷ r) h m = record {
  value = ground (arith, m.value);
  bytes = (omega arith, m.bytes);
  top = ground (arith, m.top, m.value, m.bytes);
}

magnitude_lem : (fuel n : ℕ) → n < 256 ^ fuel → Magnitude n (magnitude_bytes fuel n)
unfolding magnitude_bytes
magnitude_lem zero n h = record {
  value = unfold from_le in omega arith;
  bytes = tt;
  top = inl (refl, omega arith);
}
magnitude_lem (suc fuel) n h = elim (Bool-cases (n == 0)) [
  | inl z ↦ rw z (record {
    value = unfold from_le in ground (arith, z);
    bytes = tt;
    top = inl (refl, ground (arith, z));
  })
  | inr nz ↦
      rw (nz, bit_and-ff n)
        (Magnitude-cons n (magnitude_bytes fuel (n / 256)) (ground (arith, nz))
          (magnitude_lem fuel (n / 256) (omega (arith, pow-suc 256 fuel, h))))
]

-- The power of 256 at the last place.
abbrev place : Bytes → ℕ
place b = 256 ^ (length b - 1)

record Signed (neg : Bool) (b c : Bytes) : Type 0 where
  value : from_le c ≡ from_le b + (if neg then 0x80 * place c else 0)
  sign : not (bit_and (last_byte c) 0x80 == 0) ≡ neg
  size : length c ≡ (if ltb (last_byte b) 0x80 then length b else length b + 1)

put_low :
    (neg : Bool) (x : ℕ)
    → x < 0x80
    → bit_and x 0x80 ≡ 0
    → Signed neg (x ∷ []) (if neg then bit_or x 0x80 ∷ [] else x ∷ [])
unfolding from_le
put_low true x h c =
    let e : bit_or x 0x80 ≡ x + 128 = bit_or-80 x h in
    let d : bit_and (x + 128) 0x80 ≡ 128 = omega (arith, bit_and-80 (x + 128) (omega arith)) in
    rw e (record { value = omega arith; sign = rw d; size = ground arith })
put_low false x h c = record { value = omega arith; sign = rw c; size = ground arith }

put_high : (neg : Bool) (x : ℕ) → 128 ≤ x → Signed neg (x ∷ []) (x ∷ (if neg then 0x80 else 0) ∷ [])
unfolding from_le
put_high true x h = record { value = omega arith; sign = refl; size = ground arith }
put_high false x h = record { value = omega arith; sign = refl; size = ground arith }

Signed-cons :
    (neg : Bool) (x y : ℕ) (r c : Bytes) → Signed neg (y ∷ r) c → Signed neg (x ∷ y ∷ r) (x ∷ c)
unfolding from_le
Signed-cons neg x y r [] s = absurd (ground (arith, s.size))
Signed-cons neg x y r (z ∷ zs) s =
    let e : length (x ∷ z ∷ zs) - 1 ≡ suc (length (z ∷ zs) - 1) = omega arith in
    let p : place (x ∷ z ∷ zs) ≡ 256 * place (z ∷ zs) =
      rw e (omega (arith, pow-suc 256 (length (z ∷ zs) - 1))) in
    record { value = ground (arith, s.value, p); sign = s.sign; size = ground (arith, s.size) }

put_sign_lem :
    (neg : Bool) (x : ℕ) (b : Bytes)
    → All (λ c. c < 256) (x ∷ b)
    → Signed neg (x ∷ b) (put_sign neg (x ∷ b))
unfolding put_sign from_le
put_sign_lem neg x [] h = elim (Bool-cases (ltb x 0x80)) [
  | inl low ↦
      let clear : bit_and x 0x80 ≡ 0 = omega (arith, bit_and-80 x h.0, ltb→lt x 0x80 low) in
      rw (clear) (put_low neg x (ltb→lt x 0x80 low) clear)
  | inr high ↦
      let set : bit_and x 0x80 ≡ 128 = ground (arith, bit_and-80 x h.0, high, h.0) in
      rw set (put_high neg x (ground (arith, high)))
]
put_sign_lem neg x (y ∷ r) h =
    Signed-cons neg x y r (put_sign neg (y ∷ r)) (put_sign_lem neg y r h.1)

last_byte-le : (x : ℕ) (b : Bytes) → last_byte (x ∷ b) ≤ from_le (x ∷ b)
unfolding from_le
last_byte-le x [] = omega arith
last_byte-le x (y ∷ r) = omega (arith, last_byte-le y r)

-- The bytes of a number other than 0, with its sign, are read as that number.
Signed-num :
    (neg : Bool) (n : ℕ) (b c : Bytes)
    → from_le b ≡ n
    → Signed neg b c
    → set_vch c ≡ (if neg then minus n else pos n)
unfolding set_vch
Signed-num true n b c e s =
    let d : from_le c - 0x80 * place c ≡ n = omega (arith, s.value) in rw (s.sign, d)
Signed-num false n b c e s = rw s.sign (ap pos (omega (arith, s.value)))

-- The two ranges of the size.
Signed-size :
    (neg : Bool) (n x : ℕ) (b c : Bytes)
    → from_le (x ∷ b) ≡ n
    → All (λ c. c < 256) (x ∷ b)
    → 1 ≤ last_byte (x ∷ b)
    → Signed neg (x ∷ b) c
    → ltb 4 (length c) ≡ not (ltb n (2 ^ 31))
unfolding from_le
Signed-size neg n x [] c e h t s = ground (arith, s.size)
Signed-size neg n x (y ∷ []) c e h t s = ground (arith, s.size)
Signed-size neg n x (y ∷ z ∷ []) c e h t s = ground (arith, s.size)
Signed-size neg n x (y ∷ z ∷ w ∷ []) c e h t s = ground (arith, s.size)
Signed-size neg n x (y ∷ z ∷ w ∷ v ∷ r) c e h t s =
    let large : 2 ^ 31 ≤ n = omega (arith, e, t, last_byte-le v r) in
    let long : 4 < length c = ground (arith, s.size) in ground (arith, large, long)

signed_lem :
    (neg : Bool) (n : ℕ) (b : Bytes)
    → n ≢ 0
    → Magnitude n b
    → script_num (put_sign neg b)
      ≡ (if ltb n (2 ^ 31) then some (if neg then minus n else pos n) else none)
unfolding script_num
signed_lem neg n [] z m = absurd (ground (arith, m.top, z))
signed_lem neg n (x ∷ b) z m =
    let s : Signed neg (x ∷ b) (put_sign neg (x ∷ b)) = put_sign_lem neg x b m.bytes in
    let top : 1 ≤ last_byte (x ∷ b) = ground (arith, m.top, z) in
    rw
      (
        Signed-size neg n x b (put_sign neg (x ∷ b)) m.value m.bytes top s,
        Signed-num neg n (x ∷ b) (put_sign neg (x ∷ b)) m.value s,
      )
      (ground arith)

-- A number that fits an int64_t, but for the least one, is read back from what it is written as where
-- its absolute value is below 2^31, and is an error as an operand otherwise.
pub script_num-serialize :
    (v : ℤ)
    → pos_part v + neg_part v < 2 ^ 63
    → script_num (serialize v) ≡ (if ltb (pos_part v + neg_part v) (2 ^ 31) then some v else none)
unfolding serialize
script_num-serialize (pos zero) h =
    unfold script_num put_sign magnitude_bytes set_vch from_le in refl
script_num-serialize (pos (suc n)) h =
    let sign : ltb_ℤ (pos (suc n)) (pos 0) ≡ false = ground arith in
    let size : pos_part (pos (suc n)) + neg_part (pos (suc n)) ≡ suc n = omega arith in
    rw (sign, size)
      (signed_lem false (suc n) (magnitude_bytes 8 (suc n)) (omega arith)
        (magnitude_lem 8 (suc n) (omega arith)))
script_num-serialize (negsuc n) h =
    let sign : ltb_ℤ (negsuc n) (pos 0) ≡ true = ground arith in
    let size : pos_part (negsuc n) + neg_part (negsuc n) ≡ suc n = omega arith in
    let value : minus (suc n) ≡ negsuc n = ground arith in
    rw (sign, size, ← value)
      (signed_lem true (suc n) (magnitude_bytes 8 (suc n)) (omega arith)
        (magnitude_lem 8 (suc n) (omega arith)))
