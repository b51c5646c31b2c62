-- ===== src/Interp/Multisig.antt =====
-- The matching of signatures with keys in OP_CHECKMULTISIG (script.cpp).
use darcoin.Common.{
  ◌≤◌, ◌≡◌, ◌↔◌, refl, Bool, true, false, Bool-cases, inl, inr, List, [], ◌∷◌, ltb, ltb→lt, length,
  Bytes, arith,
}
use darcoin.Interp.Signatures.{match_signatures}

-- Each signature is good for a key of its own, and both stand in the same order.
pub data IsMatched (ok : Bytes → Bytes → Bool) : List Bytes → List Bytes → Type 0 where
  no_more : {keys : List Bytes} → IsMatched ok [] keys
  use_key :
      {sig key : Bytes}
      → {sigs keys : List Bytes} → ok sig key ≡ true
      → IsMatched ok sigs keys
      → IsMatched ok (sig ∷ sigs) (key ∷ keys)
  skip_key :
      {key : Bytes}
      → {sigs keys : List Bytes} → IsMatched ok sigs keys
      → IsMatched ok sigs (key ∷ keys)

length-IsMatched :
    {ok : Bytes → Bytes → Bool} {sigs keys : List Bytes}
    → IsMatched ok sigs keys
    → length sigs ≤ length keys
length-IsMatched no_more = omega arith
length-IsMatched (use_key e m) = omega (arith, length-IsMatched m)
length-IsMatched (skip_key m) = omega (arith, length-IsMatched m)

-- One signature less is matched as well.
IsMatched-rest :
    {ok : Bytes → Bytes → Bool} {sig : Bytes} {sigs keys : List Bytes}
    → IsMatched ok (sig ∷ sigs) keys
    → IsMatched ok sigs keys
IsMatched-rest (use_key e m) = skip_key m
IsMatched-rest (skip_key m) = skip_key (IsMatched-rest m)

-- A key that a signature is good for can be used for it.
IsMatched-used :
    {ok : Bytes → Bytes → Bool} {sig key : Bytes} {sigs keys : List Bytes}
    → IsMatched ok (sig ∷ sigs) (key ∷ keys)
    → IsMatched ok sigs keys
IsMatched-used (use_key e m) = m
IsMatched-used (skip_key m) = IsMatched-rest m

-- A key that it is not good for is skipped.
IsMatched-skipped :
    {ok : Bytes → Bytes → Bool} {sig key : Bytes} {sigs keys : List Bytes}
    → ok sig key ≡ false
    → IsMatched ok (sig ∷ sigs) (key ∷ keys)
    → IsMatched ok (sig ∷ sigs) keys
IsMatched-skipped n (use_key e m) = absurd (cc (rw n at e))
IsMatched-skipped n (skip_key m) = m

IsMatched-match_signatures :
    (ok : Bytes → Bytes → Bool) (sigs keys : List Bytes)
    → match_signatures ok sigs keys ≡ true
    → IsMatched ok sigs keys
unfolding match_signatures
IsMatched-match_signatures ok [] keys e = no_more
IsMatched-match_signatures ok (sig ∷ sigs) [] e = cc
IsMatched-match_signatures ok (sig ∷ sigs) (key ∷ keys) e = elim (Bool-cases (ok sig key)) [
  | inl y ↦ elim (Bool-cases (ltb (length keys) (length sigs))) [
    | inl l ↦ absurd (cc (rw (y, l) at e))
    | inr l ↦ use_key y (IsMatched-match_signatures ok sigs keys (rw (y, l) at e))
  ]
  | inr n ↦ elim (Bool-cases (ltb (length keys) (length (sig ∷ sigs)))) [
    | inl l ↦ absurd (cc (rw (n, l) at e))
    | inr l ↦ skip_key (IsMatched-match_signatures ok (sig ∷ sigs) keys (rw (n, l) at e))
  ]
]

match_signatures-IsMatched :
    (ok : Bytes → Bytes → Bool) (sigs keys : List Bytes)
    → IsMatched ok sigs keys
    → match_signatures ok sigs keys ≡ true
unfolding match_signatures
match_signatures-IsMatched ok [] keys m = refl
match_signatures-IsMatched ok (sig ∷ sigs) [] m = absurd (omega (arith, length-IsMatched m))
match_signatures-IsMatched ok (sig ∷ sigs) (key ∷ keys) m = elim (Bool-cases (ok sig key)) [
  | inl y ↦ elim (Bool-cases (ltb (length keys) (length sigs))) [
    | inl l ↦ absurd (omega (arith, ltb→lt _ _ l, length-IsMatched (IsMatched-used m)))
    | inr l ↦ rw (y, l) (match_signatures-IsMatched ok sigs keys (IsMatched-used m))
  ]
  | inr n ↦ elim (Bool-cases (ltb (length keys) (length (sig ∷ sigs)))) [
    | inl l ↦ absurd (omega (arith, ltb→lt _ _ l, length-IsMatched (IsMatched-skipped n m)))
    | inr l ↦ rw (n, l) (match_signatures-IsMatched ok (sig ∷ sigs) keys (IsMatched-skipped n m))
  ]
]

-- The loop of OP_CHECKMULTISIG succeeds exactly where the signatures can be matched, in their
-- order, each with a key of its own that it is good for.
pub match_signatures_iff-IsMatched :
    (ok : Bytes → Bytes → Bool) (sigs keys : List Bytes)
    → (match_signatures ok sigs keys ≡ true) ↔ IsMatched ok sigs keys
match_signatures_iff-IsMatched ok sigs keys =
    (IsMatched-match_signatures ok sigs keys, match_signatures-IsMatched ok sigs keys)
