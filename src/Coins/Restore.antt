-- ===== src/Coins/Restore.antt =====
-- The undo step of DisconnectBlock puts back what CCoins::Spend took.
use mathlib.Core.Option.{some-injective}
use darcoin.Common.{
  ℕ, zero, suc, ◌+◌, ◌-◌, ◌≡◌, refl, ap, sym, subst, ◌∙◌, ◌≢◌, ◌⊎◌, inl, inr, true, false, not,
  ◌&&◌, some, List, [], ◌∷◌, ◌==◌, if◌then◌else◌, length, get_elem?, set, all, All, arith,
}
use darcoin.Tx.Output
use darcoin.Tx.Output.{TxOut}
use darcoin.Coins.{
  Coins, TxInUndo, is_available, is_pruned, spend, extend_vout, restore_base, restore_output,
}
use darcoin.Coins.Spend.{trim, IsTrimmed, trim_self, Spent, spend-Spent}

-- A null output is the one that SetNull makes.
abbrev pub IsPlain : TxOut → Type 0
IsPlain o = (Output.is_null o ≡ false) ⊎ (o ≡ Output.null)

-- What ClearUnspendable leaves of outputs whose amounts are not negative.
pub record IsClean (c : Coins) : Type 0 where
  pub trimmed : IsTrimmed c.vout
  pub plain : All IsPlain c.vout

-- Writing an output, with the vector extended where it is too short.
put : List TxOut → ℕ → TxOut → List TxOut
put [] zero v = v ∷ []
put [] (suc n) v = Output.null ∷ put [] n v
put (o ∷ r) zero v = v ∷ r
put (o ∷ r) (suc n) v = o ∷ put r n v

extend_nil : (n : ℕ) → extend_vout [] (suc n) ≡ Output.null ∷ extend_vout [] n
unfolding extend_vout
extend_nil n = let e : suc n + 1 - 0 ≡ suc (n + 1 - 0) = omega arith in rw e (ground arith)

extend_cons :
    (o : TxOut) (r : List TxOut) (n : ℕ) → extend_vout (o ∷ r) (suc n) ≡ o ∷ extend_vout r n
unfolding extend_vout
extend_cons o r n =
    let e : suc n + 1 - suc (length r) ≡ n + 1 - length r = omega arith in rw e (ground arith)

set_extend-put :
    (vout : List TxOut) (n : ℕ) (v : TxOut) → set (extend_vout vout n) n v ≡ put vout n v
unfolding put
set_extend-put [] zero v = unfold extend_vout in ground arith
set_extend-put [] (suc n) v = rw extend_nil (ap (◌∷◌ Output.null) (set_extend-put [] n v))
set_extend-put (o ∷ r) zero v = unfold extend_vout in ground arith
set_extend-put (o ∷ r) (suc n) v = rw extend_cons (ap (◌∷◌ o) (set_extend-put r n v))

put-trim :
    (vout : List TxOut) (n : ℕ) (v : TxOut)
    → get_elem? vout n ≡ some v
    → IsTrimmed vout
    → All IsPlain vout
    → put (trim (set vout n Output.null)) n v ≡ vout
unfolding put trim
put-trim [] n v e t p = cc
put-trim (o ∷ r) zero v e t p = ground (arith, trim_self r)
put-trim (o ∷ r) (suc n) v e t p = ground (arith, put-trim r n v)

nil_of_pruned : (vout : List TxOut) → IsTrimmed vout → all Output.is_null vout ≡ true → vout ≡ []
nil_of_pruned [] t h = refl
nil_of_pruned (o ∷ r) t h = ground (arith, nil_of_pruned r t.1)

restore_lem :
    (c : Coins) (n : ℕ) (undo : TxInUndo)
    → restore_output c n undo ≡ (
      record (restore_base c undo) { vout = put (restore_base c undo).vout n undo.txout },
      (if undo.height == 0 then not (is_pruned c) else is_pruned c)
          && not (is_available (restore_base c undo) n),
    )
unfolding restore_output
restore_lem c n undo = rw set_extend-put

restore-Spent :
    (c c' : Coins) (n : ℕ) (undo : TxInUndo)
    → IsClean c
    → c.height ≢ 0
    → Spent c n undo c'
    → restore_output c' n undo ≡ (c, true)
restore-Spent c c' n undo w h s = restore_lem c' n undo ∙ (elim s.metadata [
  | inl m ↦
      let gone : c'.vout ≡ [] = nil_of_pruned c'.vout s.trimmed m.0 in
      let none_left : trim (set c.vout n Output.null) ≡ [] = sym s.outputs ∙ gone in
      unfold restore_base in
      ground (arith, put-trim c.vout n undo.txout s.kept w.trimmed w.plain, none_left)
  | inr m ↦
      unfold restore_base in
      ground (arith, put-trim c.vout n undo.txout s.kept w.trimmed w.plain, s.taken n)
])

-- The same from any coins without an output, where Spend took the last one.
restore-Spent_pruned :
    (c c' d : Coins) (n : ℕ) (undo : TxInUndo)
    → IsClean c
    → c.height ≢ 0
    → Spent c n undo c'
    → is_pruned c' ≡ true
    → is_pruned d ≡ true
    → restore_output d n undo ≡ (c, true)
restore-Spent_pruned c c' d n undo w h s p q = restore_lem d n undo ∙ (elim s.metadata [
  | inl m ↦
      let gone : c'.vout ≡ [] = nil_of_pruned c'.vout s.trimmed p in
      let none_left : trim (set c.vout n Output.null) ≡ [] = sym s.outputs ∙ gone in
      unfold restore_base in
      ground (arith, put-trim c.vout n undo.txout s.kept w.trimmed w.plain, none_left)
  | inr m ↦ absurd (cc (sym p ∙ m.0))
])

-- Coins that a view may show for those that Spend left: the same, or none where nothing is left.
abbrev pub Stands : Coins → Coins → Type 0
Stands d c' = (d ≡ c') ⊎ ((is_pruned c' ≡ true) × (is_pruned d ≡ true))

-- DisconnectBlock puts back the output that Spend took, whether the view still has what Spend left or,
-- where that was nothing, has dropped it: the result is the coins as they were, and no inconsistency.
-- The coins have no null outputs at the end, each null output is the one of SetNull, and the height is
-- not 0.
pub restore-spend :
    (c c' d : Coins) (n : ℕ) (undo : TxInUndo)
    → IsClean c
    → c.height ≢ 0
    → spend c n ≡ some (undo, c')
    → Stands d c'
    → restore_output d n undo ≡ (c, true)
restore-spend c c' d n undo w h e stands = elim (spend-Spent c n) [
  | inl (none_, _) ↦ cc
  | inr (r, e', s) ↦
      let spent : Spent c n undo c' =
        subst (λ (q : TxInUndo × Coins). Spent c n q.0 q.1)
          (some-injective r (undo, c') (sym e' ∙ e)) s in
      elim stands [
        | inl same ↦ ap (λ x. restore_output x n undo) same ∙ restore-Spent c c' n undo w h spent
        | inr (p, q) ↦ restore-Spent_pruned c c' d n undo w h spent p q
      ]
]
