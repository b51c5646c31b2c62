-- ===== src/Interp/SignatureHash/Code.antt =====
-- What SerializeScriptCode (script.cpp) writes for a script that GetOp reads to its end.
use mathlib.Core.List.{append_assoc, append-nil}
use darcoin.Common.{
  ℕ, zero, suc, ◌+◌, ◌-◌, ◌*◌, ◌%◌, ◌^◌, ◌≤◌, ◌≡◌, refl, sym, ap, ◌∙◌, Bool-cases, some, inl, inr,
  List, [], ◌∷◌, ◌++◌, ltb, leb, ◌==◌, ==_iff, if◌then◌else◌, length, take, drop, length-append,
  take-append, Bytes, arith,
}
use mathlib.Core.Option.{some-injective}
use darcoin.Serialize.{Read, ok, fail, ◌>>=◌, read_le}
use darcoin.Script.{Op, operand_size, take_operand, get_op, with_op}
use darcoin.Script.Termination.{length-get_op, get_op-opcode}
use darcoin.Tx.Serialize.{write_vector}
use darcoin.Interp.SignatureHash.{count_separators, copy_code, write_script_code}

-- GetOp reads the script to its end.
pub data Parses : Bytes → Type 0 where
  done : Parses []
  next : {s : Bytes} → (op : Op) → get_op s ≡ some op → Parses op.rest → Parses s

-- The script without its code separators.
unfoldable pub without_separators : ℕ → Bytes → Bytes
without_separators zero s = []
without_separators (suc fuel) s = with_op (get_op s) [] (λ op.
    (if op.opcode == 0xab then [] else take (length s - length op.rest) s)
    ++ without_separators fuel op.rest)

IsTail : Bytes → Bytes → Type 0
IsTail s t = (p : Bytes) × (s ≡ p ++ t)

LeavesTail : Bytes → Read ℕ → Type 0
LeavesTail s (fail e) = Unit {0}
LeavesTail s (ok v r) = IsTail s r

LeavesTail-byte :
    (c : ℕ) (s : Bytes) (r : Read ℕ)
    → LeavesTail s r
    → LeavesTail (c ∷ s) (r >>= λ v rest. ok (c + 256 * v) rest)
unfolding LeavesTail IsTail
LeavesTail-byte c s (fail e) h = tt
LeavesTail-byte c s (ok v r) (p, e) = (c ∷ p, ap (λ t. c ∷ t) e)

LeavesTail-read_le : (k : ℕ) (s : Bytes) → LeavesTail s (read_le k s)
unfolding read_le LeavesTail IsTail
LeavesTail-read_le zero s = ([], refl)
LeavesTail-read_le (suc k) [] = tt
LeavesTail-read_le (suc k) (c ∷ s) = LeavesTail-byte c s (read_le k s) (LeavesTail-read_le k s)

LeavesTail-operand_size : (c : ℕ) (s : Bytes) → LeavesTail s (operand_size c s)
unfolding LeavesTail IsTail
LeavesTail-operand_size c s = elim (Bool-cases (ltb c 0x4c)) [
  | inl y ↦ rw y ([], refl)
  | inr n ↦ elim (Bool-cases (c == 0x4c)) [
    | inl y ↦ rw (n, y) (LeavesTail-read_le 1 s)
    | inr m ↦ elim (Bool-cases (c == 0x4d)) [
      | inl y ↦ rw (n, m, y) (LeavesTail-read_le 2 s)
      | inr k ↦ rw (n, m, k) (LeavesTail-read_le 4 s)
    ]
  ]
]

take-drop {ℓ} : {A : Type ℓ} → (n : ℕ) (s : List A) → s ≡ take n s ++ drop n s
take-drop zero s = refl
take-drop (suc n) [] = refl
take-drop (suc n) (x ∷ s) = ap (λ t. x ∷ t) (take-drop n s)

IsTail-take_operand :
    (s : Bytes) (c : ℕ) (r : Read ℕ) (op : Op)
    → LeavesTail s r
    → take_operand c r ≡ some op
    → IsTail s op.rest × (op.opcode ≡ c)
unfolding LeavesTail IsTail
IsTail-take_operand s c (fail e) op h t = cc
IsTail-take_operand s c (ok size r) op (p, e) t = elim (Bool-cases (ltb (length r % 2 ^ 32) size)) [
  | inl y ↦ absurd (cc (rw y at t))
  | inr m ↦
      let found : record { opcode = c; pushed = take size r; rest = drop size r } ≡ op =
        some-injective _ op (rw m at t) in
      (
        (
          p ++ take size r,
          e
              ∙ ap (λ t. p ++ t) (take-drop size r)
              ∙ sym (append_assoc p (take size r) (drop size r))
              ∙ ap (λ (o : Op). (p ++ take size r) ++ o.rest) found,
        ),
        sym (ap (λ (o : Op). o.opcode) found),
      )
]

-- What GetOp reads is the opcode and its operand, in front of what it leaves.
get_op-IsTail :
    (c : ℕ) (s : Bytes) (op : Op) → get_op (c ∷ s) ≡ some op → IsTail s op.rest × (op.opcode ≡ c)
unfolding get_op IsTail
get_op-IsTail c s op e = elim (Bool-cases (leb c 0x4e)) [
  | inl y ↦ IsTail-take_operand s c (operand_size c s) op (LeavesTail-operand_size c s) (rw y at e)
  | inr n ↦
      let found : record { opcode = c; pushed = []; rest = s } ≡ op =
        some-injective _ op (rw n at e) in
      (([], ap (λ (o : Op). o.rest) found), sym (ap (λ (o : Op). o.opcode) found))
]

-- A code separator is one byte.
separator-rest :
    (c : ℕ) (s : Bytes) (op : Op)
    → get_op (c ∷ s) ≡ some op
    → op.opcode ≡ 0xab
    → c ∷ s ≡ 0xab ∷ op.rest
separator-rest c s op e h =
    let code : c ≡ 0xab = sym (get_op-IsTail c s op e).1 ∙ h in
    let found : record { opcode = 0xab; pushed = []; rest = s } ≡ op =
      some-injective _ op (sym (get_op-opcode 0xab s refl) ∙ (rw code at e)) in
    rw code (ap (λ (o : Op). 0xab ∷ o.rest) found)

-- The bytes in front of a tail.
take_front : (n : ℕ) (s p r : Bytes) → s ≡ p ++ r → n ≡ length s - length r → take n s ≡ p
take_front n s p r e h =
    let size : n ≡ length p = omega (arith, h, ap length e, length-append p r) in
    rw (size, e) (take-append p r)

copy_code_lem :
    (k : ℕ) (pre s : Bytes)
    → Parses s
    → length s ≤ k
    → copy_code k (pre ++ s) s ≡ pre ++ without_separators k s
unfolding copy_code without_separators get_op IsTail
copy_code_lem zero pre [] done h = take_front _ _ (pre ++ []) [] (sym (append-nil (pre ++ []))) refl
copy_code_lem (suc k) pre [] done h =
    take_front _ _ (pre ++ []) [] (sym (append-nil (pre ++ []))) refl
copy_code_lem k pre [] (next op g r) h = absurd (omega (arith, length-get_op [] op g))
copy_code_lem zero pre (c ∷ s) (next op g r) h = absurd (omega arith)
copy_code_lem (suc k) pre (c ∷ s) (next op g r) h =
    let shorter : length op.rest ≤ k = omega (arith, length-get_op (c ∷ s) op g, h) in
    elim (Bool-cases (op.opcode == 0xab)) [
      | inl y ↦
          let same : c ∷ s ≡ 0xab ∷ op.rest = separator-rest c s op g ((==_iff _ _).0 y) in
          let front : take (length (pre ++ c ∷ s) - length op.rest - 1) (pre ++ c ∷ s) ≡ pre =
            take_front _ (pre ++ c ∷ s) pre (c ∷ s) refl (omega (arith, ap length same)) in
          rw (g, y, front, copy_code_lem k [] op.rest r shorter) refl
      | inr n ↦
          let (p, e) = (get_op-IsTail c s op g).0 in
          let split : c ∷ s ≡ (c ∷ p) ++ op.rest = ap (λ t. c ∷ t) e in
          let front : take (length (c ∷ s) - length op.rest) (c ∷ s) ≡ c ∷ p =
            take_front _ (c ∷ s) (c ∷ p) op.rest split refl in
          rw (g, n)
            (ap (λ t. copy_code k (pre ++ t) op.rest) split
              ∙ ap (λ b. copy_code k b op.rest) (sym (append_assoc pre (c ∷ p) op.rest))
              ∙ copy_code_lem k (pre ++ (c ∷ p)) op.rest r shorter
              ∙ append_assoc pre (c ∷ p) (without_separators k op.rest)
              ∙ ap (λ t. pre ++ (t ++ without_separators k op.rest)) (sym front))
    ]

length-without_separators :
    (k : ℕ) (s : Bytes)
    → Parses s
    → length s ≤ k
    → length (without_separators k s) + count_separators k s ≡ length s
unfolding without_separators count_separators get_op IsTail
length-without_separators zero [] done h = refl
length-without_separators (suc k) [] done h = refl
length-without_separators k [] (next op g r) h = absurd (omega (arith, length-get_op [] op g))
length-without_separators zero (c ∷ s) (next op g r) h = absurd (omega arith)
length-without_separators (suc k) (c ∷ s) (next op g r) h =
    let shorter : length op.rest ≤ k = omega (arith, length-get_op (c ∷ s) op g, h) in
    let rest = length-without_separators k op.rest r shorter in
    elim (Bool-cases (op.opcode == 0xab)) [
      | inl y ↦
          rw (g, y) (omega (arith, rest, ap length (separator-rest c s op g ((==_iff _ _).0 y))))
      | inr n ↦
          let (p, e) = (get_op-IsTail c s op g).0 in
          let front : take (length (c ∷ s) - length op.rest) (c ∷ s) ≡ c ∷ p =
            take_front _ (c ∷ s) (c ∷ p) op.rest (ap (λ t. c ∷ t) e) refl in
          rw (g, n, front)
            (omega (
              arith,
              rest,
              ap length e,
              length-append p op.rest,
              length-append p (without_separators k op.rest),
            ))
    ]

-- A script that GetOp reads to its end is written as the vector of its bytes without code separators.
pub write_script_code_lem :
    (s : Bytes) → Parses s → write_script_code s ≡ write_vector (without_separators (length s) s)
unfolding write_script_code write_vector
write_script_code_lem s p =
    let size : length s - count_separators (length s) s ≡ length (without_separators (length s) s) =
      omega (arith, length-without_separators (length s) s p (omega arith)) in
    rw (size, copy_code_lem (length s) [] s p (omega arith)) refl
