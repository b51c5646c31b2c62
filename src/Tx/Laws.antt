-- ===== src/Tx/Laws.antt =====
-- operator==, IsNewerThan and IsFinalTx.
use Prim.Native.Nat.{min}
use darcoin.Common.{
  ℕ, ◌≤◌, ◌≡◌, refl, ◌≢◌, Bool, Bool-cases, inl, inr, ap, ◌∙◌, true, ◌&&◌, List, [], ◌∷◌, ℤ, pos,
  ltb, ◌==◌, ◌≤ℤ◌, if◌then◌else◌, length, ==_self, bytes_eq_iff, eqb_ℤ_iff, arith,
}
use darcoin.Tx
use darcoin.Tx.Prevout
use darcoin.Tx.Input
use darcoin.Tx.Output
use darcoin.Tx.{
  Transaction, vector_eq, newer_round, newer_loop, same_prevouts, is_newer_than, is_final_tx,
}
use darcoin.Tx.Prevout.{uint_max}
use darcoin.Tx.Input.{TxIn}

vector_eq_self {ℓ} :
    {A : Type ℓ} (f : A → A → Bool)
    → ((x : A) → f x x ≡ true)
    → (xs : List A) → vector_eq f xs xs ≡ true
vector_eq_self f h [] = refl
vector_eq_self f h (x ∷ xs) = rw (h x, vector_eq_self f h xs) refl

eq-input : (i : TxIn) → Input.eq i i ≡ true
unfolding Input.eq
eq-input i =
    rw
      (
        (Prevout.eq_iff i.prevout i.prevout).1 refl,
        (bytes_eq_iff i.script_sig i.script_sig).1 refl,
        ==_self i.sequence,
      )
      refl

-- operator== reads no other field.
pub eq-fields :
    (a b : Transaction)
    → (a.version ≡ b.version) × (a.vin ≡ b.vin) × (a.vout ≡ b.vout) × (a.lock_time ≡ b.lock_time)
    → Tx.eq a b ≡ true
unfolding Tx.eq
eq-fields a b (v, i, o, l) =
    rw
      (
        v,
        i,
        o,
        l,
        (eqb_ℤ_iff b.version b.version).1 refl,
        vector_eq_self Input.eq eq-input b.vin,
        vector_eq_self Output.eq (λ x. (Output.eq_iff x x).1 refl) b.vout,
        ==_self b.lock_time,
      )
      refl

-- The least sequence numbers, of each side, among the inputs whose numbers differ.
abbrev pub lowest : (TxIn → TxIn → ℕ) → List TxIn → List TxIn → ℕ
lowest side [] olds = uint_max
lowest side (i ∷ r) [] = uint_max
lowest side (i ∷ r) (o ∷ olds) =
    if i.sequence == o.sequence then lowest side r olds else min (side i o) (lowest side r olds)

-- fNewer and nLowest are determined by the two least numbers so far.
newer_round_lem :
    (new old n o : ℕ)
    → new ≢ old
    → newer_round new old (ltb o n, min o n)
      ≡ (ltb (min o old) (min n new), min (min o old) (min n new))
unfolding newer_round
newer_round_lem new old n o h = ground arith

newer_round_same : (new old : ℕ) (s : Bool × ℕ) → (new == old) ≡ true → newer_round new old s ≡ s
unfolding newer_round
newer_round_same new old s h = rw h

min_assoc : (a b c : ℕ) → min (min a b) c ≡ min a (min b c)
min_assoc a b c = omega arith

newer_loop-lowest :
    (vin olds : List TxIn) (n o : ℕ)
    → n ≤ uint_max
    → o ≤ uint_max
    → (newer_loop vin olds (ltb o n, min o n)).0
      ≡ ltb
          (min o (lowest (λ i j. j.sequence) vin olds))
          (min n (lowest (λ i j. i.sequence) vin olds))
unfolding newer_loop
newer_loop-lowest [] olds n o h k = ground arith
newer_loop-lowest (i ∷ r) [] n o h k = ground arith
newer_loop-lowest (i ∷ r) (j ∷ olds) n o h k = elim (Bool-cases (i.sequence == j.sequence)) [
  | inl e ↦
      ap (λ s. (newer_loop r olds s).0)
        (newer_round_same i.sequence j.sequence (ltb o n, min o n) e)
      ∙ newer_loop-lowest r olds n o h k
      ∙ rw e
  | inr e ↦
      ap (λ s. (newer_loop r olds s).0) (newer_round_lem i.sequence j.sequence n o (ground arith))
      ∙ newer_loop-lowest r olds (min n i.sequence) (min o j.sequence) (omega arith) (omega arith)
      ∙ rw (e, min_assoc n, min_assoc o) refl
]

lowest-le : (side : TxIn → TxIn → ℕ) (vin olds : List TxIn) → lowest side vin olds ≤ uint_max
lowest-le side [] olds = omega arith
lowest-le side (i ∷ r) [] = omega arith
lowest-le side (i ∷ r) (o ∷ olds) = ground (arith, lowest-le side r olds)

-- A transaction is newer than another exactly when they spend the same outputs and, among the inputs
-- whose sequence numbers differ, the least number of the other is below that of the first.
pub is_newer_than-lowest :
    (tx old : Transaction)
    → is_newer_than tx old ≡ (
        length tx.vin == length old.vin
        && (same_prevouts tx.vin old.vin
            && ltb
                (lowest (λ i j. j.sequence) tx.vin old.vin)
                (lowest (λ i j. i.sequence) tx.vin old.vin)))
unfolding is_newer_than
is_newer_than-lowest tx old = ground (
  arith,
  newer_loop-lowest tx.vin old.vin uint_max uint_max,
  lowest-le (λ i j. j.sequence) tx.vin old.vin,
  lowest-le (λ i j. i.sequence) tx.vin old.vin,
)

-- A final transaction stays final: at any later height and time.
pub is_final_tx_mono :
    (tx : Transaction) (chain now h h' t t' : ℤ)
    → is_final_tx tx chain now h t ≡ true
    → pos 1 ≤ℤ h
    → pos 1 ≤ℤ t
    → h ≤ℤ h'
    → t ≤ℤ t'
    → is_final_tx tx chain now h' t' ≡ true
unfolding is_final_tx
is_final_tx_mono tx chain now h h' t t' e p q r s = ground arith
