-- ===== src/Script/Termination.antt =====
-- GetOp moves on; rounds of the loop of GetSigOpCount beyond the bytes of the script change nothing.
use mathlib.Core.Option.{some-injective}
use darcoin.Common.{
  ℕ, zero, suc, ◌+◌, ◌*◌, ◌%◌, ◌^◌, ◌≤◌, ◌<◌, ◌≡◌, refl, sym, ap, ◌∙◌, Bool, false, Bool-cases,
  Option-cases, some, inl, inr, [], ◌∷◌, ltb, leb, ◌==◌, length, take, drop, length-drop, Bytes,
  arith,
}
use darcoin.Serialize.{Read, ok, fail, ◌>>=◌, read_le}
use darcoin.Script.{Op, operand_size, take_operand, get_op, count_op, sig_op_loop, get_sig_op_count}

-- A read leaves no more than it was given.
abbrev Left : ℕ → Read ℕ → Type 0
Left n (fail e) = Unit {0}
Left n (ok v r) = length r ≤ n

Left-byte : (n c : ℕ) (r : Read ℕ) → Left n r → Left (suc n) (r >>= λ v rest. ok (c + 256 * v) rest)
Left-byte n c (fail e) h = tt
Left-byte n c (ok v r) h = omega (arith, h)

Left-read_le : (k : ℕ) (s : Bytes) → Left (length s) (read_le k s)
unfolding read_le
Left-read_le zero s = omega arith
Left-read_le (suc k) [] = tt
Left-read_le (suc k) (c ∷ s) = Left-byte (length s) c (read_le k s) (Left-read_le k s)

Left-operand_size : (c : ℕ) (s : Bytes) → Left (length s) (operand_size c s)
Left-operand_size c s = elim (Bool-cases (ltb c 0x4c)) [
  | inl y ↦ rw y (omega arith)
  | inr n ↦ elim (Bool-cases (c == 0x4c)) [
    | inl y ↦ rw (n, y) (Left-read_le 1 s)
    | inr m ↦ elim (Bool-cases (c == 0x4d)) [
      | inl y ↦ rw (n, m, y) (Left-read_le 2 s)
      | inr k ↦ rw (n, m, k) (Left-read_le 4 s)
    ]
  ]
]

Left-take_operand :
    (n c : ℕ) (r : Read ℕ) (op : Op) → Left n r → take_operand c r ≡ some op → length op.rest ≤ n
Left-take_operand n c (fail e) op h t = cc
Left-take_operand n c (ok size s) op h t = elim (Bool-cases (ltb (length s % 2 ^ 32) size)) [
  | inl y ↦ absurd (cc (rw y at t))
  | inr m ↦
      let found : record { opcode = c; pushed = take size s; rest = drop size s } ≡ op =
        some-injective _ op (rw m at t) in
      omega (arith, h, length-drop size s, ap (λ (o : Op). length o.rest) found)
]

-- An opcode above OP_PUSHDATA4 stands alone.
pub get_op-opcode :
    (c : ℕ) (s : Bytes)
    → leb c 0x4e ≡ false
    → get_op (c ∷ s) ≡ some (record { opcode = c; pushed = []; rest = s })
unfolding get_op
get_op-opcode c s n = rw n refl

-- GetOp moves pc.
pub length-get_op : (s : Bytes) (op : Op) → get_op s ≡ some op → length op.rest < length s
unfolding get_op
length-get_op [] op e = cc
length-get_op (c ∷ s) op e = elim (Bool-cases (leb c 0x4e)) [
  | inl y ↦ omega (
    arith,
    Left-take_operand (length s) c (operand_size c s) op (Left-operand_size c s) (rw y at e),
  )
  | inr n ↦
      let found : record { opcode = c; pushed = []; rest = s } ≡ op =
        some-injective _ op (rw n at e) in
      omega (arith, ap (λ (o : Op). length o.rest) found)
]

sig_op_loop_end :
    (fuel : ℕ) (accurate : Bool) (last n : ℕ) → sig_op_loop fuel accurate [] last n ≡ n
unfolding sig_op_loop get_op
sig_op_loop_end zero accurate last n = refl
sig_op_loop_end (suc fuel) accurate last n = refl

sig_op_loop-enough :
    (k m : ℕ) (accurate : Bool) (s : Bytes) (last n : ℕ)
    → length s ≤ k
    → length s ≤ m
    → sig_op_loop k accurate s last n ≡ sig_op_loop m accurate s last n
unfolding sig_op_loop
sig_op_loop-enough k m accurate [] last n f g =
    sig_op_loop_end k accurate last n ∙ sym (sig_op_loop_end m accurate last n)
sig_op_loop-enough zero m accurate (c ∷ s) last n f g = absurd (omega arith)
sig_op_loop-enough (suc k) zero accurate (c ∷ s) last n f g = absurd (omega arith)
sig_op_loop-enough (suc k) (suc m) accurate (c ∷ s) last n f g =
    elim (Option-cases (get_op (c ∷ s))) [
      | inl e ↦ rw e refl
      | inr (op, e) ↦
          let shorter : length op.rest < length (c ∷ s) = length-get_op (c ∷ s) op e in
          rw e (
            sig_op_loop-enough k m accurate op.rest op.opcode (count_op accurate last op.opcode n)
              (omega (arith, shorter, f)) (omega (arith, shorter, g)))
    ]

-- GetSigOpCount is what its loop counts in as many rounds as the script has bytes, or in more.
get_sig_op_count-enough :
    (accurate : Bool) (s : Bytes) (fuel : ℕ)
    → length s ≤ fuel
    → sig_op_loop fuel accurate s 0xff 0 ≡ get_sig_op_count accurate s
unfolding get_sig_op_count
get_sig_op_count-enough accurate s fuel f =
    sig_op_loop-enough fuel (length s) accurate s 0xff 0 f (omega arith)
