-- ===== src/Script/Laws.antt =====
-- What operator<< pushes is what GetOp reads, one push after the other.
use mathlib.Core.List.{append_assoc}
use darcoin.Common.{
  ℕ, zero, suc, ◌+◌, ◌%◌, ◌^◌, ◌≤◌, ◌<◌, ◌≡◌, refl, sym, ap, ◌∙◌, Bool-cases, true, false, some,
  inl, inr, List, [], ◌∷◌, ◌++◌, ltb, leb, length, length-append, take-append, drop-append, Bytes,
  arith,
}
use darcoin.Serialize.{ok, write_le}
use darcoin.Serialize.CompactSize.Laws.{read_le-write_le, length-write_le}
use darcoin.Script.{
  Op, take_operand, get_op, push_prefix, push_data, get_sig_op_count, is_pay_to_script_hash,
  push_loop, is_push_only, count_pushed, sig_op_count_with,
}

take_operand_lem :
    (c : ℕ) (b rest : Bytes)
    → length (b ++ rest) < 2 ^ 32
    → take_operand c (ok (length b) (b ++ rest))
      ≡ some (record { opcode = c; pushed = b; rest = rest })
take_operand_lem c b rest h =
    let fits : ltb (length (b ++ rest) % 2 ^ 32) (length b) ≡ false =
      ground (arith, length-append b rest, h) in
    rw (fits, take-append, drop-append) refl

-- A push of up to 75 bytes.
pub get_op-short_push :
    (n : ℕ) (b rest : Bytes)
    → length b ≡ n
    → n < 0x4c
    → length (b ++ rest) < 2 ^ 32
    → get_op (n ∷ (b ++ rest)) ≡ some (record { opcode = n; pushed = b; rest = rest })
unfolding get_op
get_op-short_push n b rest e h l =
    let short : leb n 0x4e ≡ true = ground (arith, h) in
    let direct : ltb n 0x4c ≡ true = ground (arith, h) in
    rw (short, direct)
      (ap (λ k. take_operand n (ok k (b ++ rest))) (sym e) ∙ take_operand_lem n b rest l)

-- The prefix gives GetOp the size and leaves what follows.
get_op-push_prefix :
    (n : ℕ) (s : Bytes)
    → n < 2 ^ 32
    → (c : ℕ) × (c ≤ 0x4e) × (get_op (push_prefix n ++ s) ≡ take_operand c (ok n s))
unfolding get_op write_le
get_op-push_prefix n s h = elim (Bool-cases (ltb n 0x4c)) [
  | inl a ↦
      let byte : n % 256 ≡ n = ground (arith, a) in
      let operand : leb n 0x4e ≡ true = ground (arith, a) in
      (n, ground (arith, a), rw (a, byte, operand, a) refl)
  | inr a ↦ elim (Bool-cases (leb n 0xff)) [
    | inl b ↦ (
      0x4c,
      omega arith,
      rw (a, b) (ap (take_operand 0x4c) (read_le-write_le 1 n s (ground (arith, b)))),
    )
    | inr b ↦ elim (Bool-cases (leb n 0xffff)) [
      | inl c ↦ (
        0x4d,
        omega arith,
        rw (a, b, c) (ap (take_operand 0x4d) (read_le-write_le 2 n s (ground (arith, c)))),
      )
      | inr c ↦
          (0x4e, omega arith, rw (a, b, c) (ap (take_operand 0x4e) (read_le-write_le 4 n s h)))
    ]
  ]
]

-- GetOp reads what operator<< wrote, whatever follows, in scripts of less than 4 GiB.
pub get_op-push_data :
    (b rest : Bytes)
    → length (b ++ rest) < 2 ^ 32
    → (c : ℕ) × (c ≤ 0x4e)
      × (get_op (push_data b ++ rest) ≡ some (record { opcode = c; pushed = b; rest = rest }))
unfolding get_op push_data
get_op-push_data b rest h =
    let (c, small, e) =
      get_op-push_prefix (length b) (b ++ rest) (omega (arith, h, length-append b rest)) in
    (
      c,
      small,
      ap get_op (append_assoc (push_prefix (length b)) b rest) ∙ e ∙ take_operand_lem c b rest h,
    )

-- Pushes, one after the other.
abbrev pub push_all : List Bytes → Bytes
push_all [] = []
push_all (b ∷ r) = push_data b ++ push_all r

abbrev pub last_pushed : Bytes → List Bytes → Bytes
last_pushed b [] = b
last_pushed b (c ∷ r) = last_pushed c r

push_loop-op :
    (fuel : ℕ) (s pushed : Bytes) (op : Op)
    → get_op s ≡ some op
    → op.opcode ≤ 0x60
    → push_loop (suc fuel) s pushed ≡ push_loop fuel op.rest op.pushed
unfolding push_loop get_op
push_loop-op fuel [] pushed op e h = cc
push_loop-op fuel (c ∷ s) pushed op e h =
    let low : ltb 0x60 op.opcode ≡ false = ground (arith, h) in rw (e, low) refl

length-push_prefix : (n : ℕ) → 1 ≤ length (push_prefix n)
length-push_prefix n = ground (arith, length-write_le 1 n, length-write_le 2 n, length-write_le 4 n)

length-push_all :
    (b : Bytes) (r : List Bytes) → length (b ++ push_all r) + 1 ≤ length (push_all (b ∷ r))
unfolding push_data
length-push_all b r =
    let front : length ((push_prefix (length b) ++ b) ++ push_all r)
        ≡ length (push_prefix (length b)) + length b + length (push_all r) =
      omega (
        arith,
        length-append (push_prefix (length b) ++ b) (push_all r),
        length-append (push_prefix (length b)) b,
      ) in
    omega (arith, front, length-append b (push_all r), length-push_prefix (length b))

push_loop-push_all :
    (bs : List Bytes) (fuel : ℕ) (pushed : Bytes)
    → length bs ≤ fuel
    → length (push_all bs) < 2 ^ 32
    → push_loop fuel (push_all bs) pushed ≡ some (last_pushed pushed bs)
push_loop-push_all [] fuel pushed f h = unfold push_loop in refl
push_loop-push_all (b ∷ r) zero pushed f h = absurd (omega arith)
push_loop-push_all (b ∷ r) (suc fuel) pushed f h =
    let shorter : length (b ++ push_all r) < 2 ^ 32 = omega (arith, h, length-push_all b r) in
    let (c, small, e) = get_op-push_data b (push_all r) shorter in
    push_loop-op fuel (push_all (b ∷ r)) pushed _ e (omega (arith, small))
    ∙ push_loop-push_all r fuel b (omega arith)
        (omega (arith, shorter, length-append b (push_all r)))

count-push_all : (bs : List Bytes) → length bs ≤ length (push_all bs)
count-push_all [] = omega arith
count-push_all (b ∷ r) =
    omega (arith, count-push_all r, length-push_all b r, length-append b (push_all r))

-- A script of pushes is push-only, and for a key that pays to a script hash the operations that it
-- counts are those of the last thing pushed. The scripts are shorter than 4 GiB.
pub sig_op_count_with-push_all :
    (key b : Bytes) (r : List Bytes)
    → is_pay_to_script_hash key ≡ true
    → length (push_all (b ∷ r)) < 2 ^ 32
    → (is_push_only (push_all (b ∷ r)) ≡ true)
      × (sig_op_count_with key (push_all (b ∷ r)) ≡ get_sig_op_count true (last_pushed b r))
unfolding is_push_only sig_op_count_with
sig_op_count_with-push_all key b r p h =
    let run : push_loop (length (push_all (b ∷ r))) (push_all (b ∷ r)) [] ≡ some (last_pushed b r) =
      push_loop-push_all (b ∷ r) (length (push_all (b ∷ r))) [] (count-push_all (b ∷ r)) h in
    (rw run refl, rw (p, run) (unfold count_pushed in refl))
