-- ===== src/Coins/Spend.antt =====
-- CCoins::Cleanup and CCoins::Spend.
use mathlib.Core.List.{reverse-cons, reverse-append}
use darcoin.Common.{
  ℕ, zero, suc, ◌≡◌, refl, ◌≢◌, ap, ◌∙◌, ◌⊎◌, inl, inr, Bool-cases, Option-cases, true, false, not,
  ◌&&◌, none, some, List, [], ◌∷◌, ◌++◌, reverse, ◌==◌, if◌then◌else◌, get_elem?, set, all, arith,
}
use darcoin.Tx.Output
use darcoin.Tx.Output.{TxOut}
use darcoin.Coins.{
  Coins, TxInUndo, drop_nulls, cleanup_vout, cleanup, is_unspent, is_available, is_pruned, is_nil,
  fill_undo, spend_output, spend,
}

-- Cleanup from the front.
unfoldable pub trim : List TxOut → List TxOut
trim [] = []
trim (o ∷ r) = if is_nil (trim r) && Output.is_null o then [] else o ∷ trim r

drop_nulls-append :
    (xs : List TxOut) (o : TxOut)
    → drop_nulls (xs ++ o ∷ [])
      ≡ (if is_nil (drop_nulls xs) then drop_nulls (o ∷ []) else drop_nulls xs ++ o ∷ [])
unfolding drop_nulls
drop_nulls-append [] o = refl
drop_nulls-append (x ∷ xs) o = ground (arith, drop_nulls-append xs o)

is_nil-append : (xs : List TxOut) (o : TxOut) → is_nil (xs ++ o ∷ []) ≡ false
is_nil-append [] o = refl
is_nil-append (x ∷ xs) o = refl

reverse_back :
    (d : List TxOut) (o : TxOut)
    → reverse (if is_nil d then drop_nulls (o ∷ []) else d ++ o ∷ [])
      ≡ (if is_nil (reverse d) && Output.is_null o then [] else o ∷ reverse d)
unfolding drop_nulls
reverse_back [] o = ground arith
reverse_back (x ∷ d) o =
    reverse-append (x ∷ d) (o ∷ []) ∙ rw (reverse-cons x d, is_nil-append (reverse d) x)

pub cleanup_vout-trim : (vout : List TxOut) → cleanup_vout vout ≡ trim vout
unfolding cleanup_vout trim
cleanup_vout-trim [] = unfold drop_nulls in refl
cleanup_vout-trim (o ∷ r) =
    ap reverse (ap drop_nulls (reverse-cons o r) ∙ drop_nulls-append (reverse r) o)
    ∙ reverse_back (drop_nulls (reverse r)) o
    ∙ ap (λ (t : List TxOut). if is_nil t && Output.is_null o then [] else o ∷ t)
        (cleanup_vout-trim r)

-- The last output, if there is one, is not null.
abbrev pub IsTrimmed : List TxOut → Type 0
IsTrimmed [] = Unit {0}
IsTrimmed (o ∷ r) = ((r ≢ []) ⊎ (Output.is_null o ≡ false)) × IsTrimmed r

pub trim-IsTrimmed : (vout : List TxOut) → IsTrimmed (trim vout)
unfolding trim
trim-IsTrimmed [] = tt
trim-IsTrimmed (o ∷ r) = ground (arith, trim-IsTrimmed r)

pub trim_self : (vout : List TxOut) → IsTrimmed vout → trim vout ≡ vout
unfolding trim
trim_self [] h = refl
trim_self (o ∷ r) h = ground (arith, trim_self r h.1)

-- Trimming makes no output available and none unavailable.
pub is_unspent-trim :
    (vout : List TxOut) (n : ℕ)
    → is_unspent (get_elem? (trim vout) n) ≡ is_unspent (get_elem? vout n)
unfolding trim
is_unspent-trim [] n = refl
is_unspent-trim (o ∷ r) zero = ground arith
is_unspent-trim (o ∷ r) (suc n) = ground (arith, is_unspent-trim r n)

is_unspent-set-null :
    (vout : List TxOut) (n m : ℕ)
    → is_unspent (get_elem? (set vout n Output.null) m)
      ≡ (is_unspent (get_elem? vout m) && not (m == n))
is_unspent-set-null [] n m = refl
is_unspent-set-null (o ∷ r) zero zero = ground arith
is_unspent-set-null (o ∷ r) zero (suc m) = ground arith
is_unspent-set-null (o ∷ r) (suc n) zero = ground arith
is_unspent-set-null (o ∷ r) (suc n) (suc m) = ground (arith, is_unspent-set-null r n m)

all_null-trim : (vout : List TxOut) → all Output.is_null vout ≡ is_nil (trim vout)
unfolding trim
all_null-trim [] = refl
all_null-trim (o ∷ r) = ground (arith, all_null-trim r)

-- What a spend of output `n` of `c` has to give.
pub record Spent (c : Coins) (n : ℕ) (undo : TxInUndo) (c' : Coins) : Type 0 where
  pub was_available : is_available c n ≡ true
  pub kept : get_elem? c.vout n ≡ some undo.txout
  pub taken : (m : ℕ) → is_available c' m ≡ (is_available c m && not (m == n))
  pub same_coin_base : c'.coin_base ≡ c.coin_base
  pub same_height : c'.height ≡ c.height
  pub same_version : c'.version ≡ c.version
  pub trimmed : IsTrimmed c'.vout
  pub outputs : c'.vout ≡ trim (set c.vout n Output.null)
  pub metadata :
      ((is_pruned c' ≡ true)
        × (undo.height ≡ c.height)
        × (undo.coin_base ≡ c.coin_base)
        × (undo.version ≡ c.version))
      ⊎ ((is_pruned c' ≡ false) × (undo.height ≡ 0))

spend_output-Spent :
    (c : Coins) (n : ℕ) (o : TxOut)
    → get_elem? c.vout n ≡ some o
    → Output.is_null o ≡ false
    → Spent c n (spend_output c n o).0 (spend_output c n o).1
unfolding fill_undo cleanup
spend_output-Spent c n o e a =
    let v : List TxOut = set c.vout n Output.null in
    let t : cleanup_vout v ≡ trim v = cleanup_vout-trim v in
    rw t (record {
      was_available = rw (e, a);
      kept = rw e (ground arith);
      taken = λ m. is_unspent-trim v m ∙ is_unspent-set-null c.vout n m;
      same_coin_base = refl;
      same_height = refl;
      same_version = refl;
      trimmed = trim-IsTrimmed v;
      outputs = refl;
      metadata = ground (arith, all_null-trim (trim v), trim_self (trim v) (trim-IsTrimmed v));
    })

-- Spend fails on an output that is not available, and otherwise takes it and no other, and leaves in
-- the undo record the output, with the metadata exactly when nothing is left.
pub spend-Spent :
    (c : Coins) (n : ℕ)
    → ((spend c n ≡ none) × (is_available c n ≡ false))
      ⊎ ((r : TxInUndo × Coins) × (spend c n ≡ some r) × Spent c n r.0 r.1)
unfolding spend
spend-Spent c n = elim (Option-cases (get_elem? c.vout n)) [
  | inl e ↦ inl (rw (e, spend), rw e)
  | inr (o, e) ↦ elim (Bool-cases (Output.is_null o)) [
    | inl z ↦ inl (rw (e, spend) (rw z), rw (e, z))
    | inr z ↦ inr (spend_output c n o, rw (e, spend) (rw z), spend_output-Spent c n o e z)
  ]
]
