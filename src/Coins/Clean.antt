-- ===== src/Coins/Clean.antt =====
-- The coins that a new transaction adds, and the invariant that all the coins of a view have.
use mathlib.Core.Option.{some-injective}
use darcoin.Common.{
  ℕ, zero, suc, ◌≡◌, refl, sym, subst, ◌∙◌, inl, inr, Bool, false, not, some, none, Option, List,
  [], ◌∷◌, map, get_elem?, set, All, arith,
}
use darcoin.Tx.{Transaction}
use darcoin.Tx.Output
use darcoin.Tx.Output.{TxOut, IsMoney}
use darcoin.Coins.{
  Coins, TxInUndo, is_unspendable, clear_output, cleanup, clear_unspendable, coins_of, is_unspent,
  is_available, spend,
}
use darcoin.Coins.Spend.{
  trim, trim-IsTrimmed, cleanup_vout-trim, is_unspent-trim, Spent, spend-Spent,
}
use darcoin.Coins.Restore.{IsPlain, IsClean}

All-trim : (vout : List TxOut) → All IsPlain vout → All IsPlain (trim vout)
unfolding trim
All-trim [] h = tt
All-trim (o ∷ r) h = ground (arith, All-trim r h.1)

All-clear :
    (vout : List TxOut) → All (λ o. IsMoney o.value) vout → All IsPlain (map clear_output vout)
unfolding clear_output
All-clear [] h = tt
All-clear (o ∷ r) h = ground (arith, All-clear r h.1)

All-set-null : (vout : List TxOut) (n : ℕ) → All IsPlain vout → All IsPlain (set vout n Output.null)
All-set-null [] n h = tt
All-set-null (o ∷ r) zero h = (inr refl, h.1)
All-set-null (o ∷ r) (suc n) h = (h.0, All-set-null r n h.1)

-- An output that its script does not make unspendable.
abbrev pub is_spendable : Option TxOut → Bool
is_spendable none = false
is_spendable (some o) = not (is_unspendable o.script_pub_key)

is_unspent-clear :
    (vout : List TxOut) (n : ℕ)
    → All (λ o. IsMoney o.value) vout
    → is_unspent (get_elem? (map clear_output vout) n) ≡ is_spendable (get_elem? vout n)
unfolding clear_output
is_unspent-clear [] n h = refl
is_unspent-clear (o ∷ r) zero h = ground arith
is_unspent-clear (o ∷ r) (suc n) h = is_unspent-clear r n h.1

-- A transaction with amounts in range adds clean coins, in which exactly the outputs that exist and
-- whose scripts are spendable are available.
pub coins_of-IsClean :
    (tx : Transaction) (height n : ℕ)
    → All (λ o. IsMoney o.value) tx.vout
    → IsClean (coins_of tx height)
      × (is_available (coins_of tx height) n ≡ is_spendable (get_elem? tx.vout n))
unfolding coins_of clear_unspendable cleanup
coins_of-IsClean tx height n h = rw cleanup_vout-trim (
  record {
    trimmed = trim-IsTrimmed (map clear_output tx.vout);
    plain = All-trim _ (All-clear tx.vout h);
  },
  is_unspent-trim (map clear_output tx.vout) n ∙ is_unspent-clear tx.vout n h,
)

Spent-IsClean :
    (c c' : Coins) (n : ℕ) (undo : TxInUndo) → IsClean c → Spent c n undo c' → IsClean c'
Spent-IsClean c c' n undo w s = record {
  trimmed = s.trimmed;
  plain = subst (All IsPlain) (sym s.outputs) (All-trim _ (All-set-null c.vout n w.plain));
}

-- Spend, read off its result.
pub spend-inv :
    (c c' : Coins) (n : ℕ) (undo : TxInUndo) → spend c n ≡ some (undo, c') → Spent c n undo c'
spend-inv c c' n undo e = elim (spend-Spent c n) [
  | inl (failed, _) ↦ absurd (cc (sym failed ∙ e))
  | inr (r, e', s) ↦
      subst (λ (q : TxInUndo × Coins). Spent c n q.0 q.1) (some-injective r (undo, c') (sym e' ∙ e))
        s
]

-- Clean coins stay clean.
pub spend-IsClean :
    (c c' : Coins) (n : ℕ) (undo : TxInUndo) → IsClean c → spend c n ≡ some (undo, c') → IsClean c'
spend-IsClean c c' n undo w e = Spent-IsClean c c' n undo w (spend-inv c c' n undo e)
