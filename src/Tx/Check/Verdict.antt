-- ===== src/Tx/Check/Verdict.antt =====
-- The penalties of CheckTransaction.
use darcoin.Common.{
  ℕ, ◌+◌, ◌≤◌, ◌≡◌, refl, ◌≢◌, ◌⊎◌, inl, inr, Bool, Bool-cases, true, false, ◌||◌, Option,
  Option-cases, none, some, List, [], ◌∷◌, map, ℤ, pos, add64, ltb, if◌then◌else◌, All, arith,
}
use darcoin.Validation.{
  ValidationState, ModeState, raise, mode_valid, mode_error, mode_invalid, reject_invalid,
}
use darcoin.Tx.{Transaction, is_coin_base}
use darcoin.Tx.Prevout
use darcoin.Tx.Prevout.{OutPoint}
use darcoin.Tx.Input.{TxIn}
use darcoin.Tx.Output.{TxOut, max_money, IsMoney}
use darcoin.Tx.Size.{serialize_size}
use darcoin.Tx.Check.{
  max_block_size, Reject, reject, is_empty, check_inputs_nonempty, check_outputs_nonempty,
  check_size, check_outputs, check_duplicates, check_null_prevouts, first_script_size,
  check_coin_base, ◌orelse◌, find_reject, report, check_transaction,
}
use darcoin.Tx.Check.Laws.{
  total_out, Distinct, check_outputs_iff, check_duplicates_iff, Fresh-nil, check_null_prevouts_iff,
  is_empty_iff,
}

empty_list {ℓ} : {A : Type ℓ} (xs : List A) → is_empty xs ≡ true → xs ≡ []
empty_list [] e = refl
empty_list (x ∷ xs) e = cc e

-- The rejection, if there is one, has the penalty.
abbrev AtLevel : ℕ → Option Reject → Type 0
AtLevel n none = Unit {0}
AtLevel n (some r) = r.level ≡ n

check_size-AtLevel : (tx : Transaction) → AtLevel 100 (check_size tx)
check_size-AtLevel tx = ground arith

check_outputs-AtLevel : (vout : List TxOut) (t : ℤ) → AtLevel 100 (check_outputs vout t)
unfolding check_outputs
check_outputs-AtLevel [] t = tt
check_outputs-AtLevel (o ∷ r) t = ground (arith, check_outputs-AtLevel r (add64 t o.value))

check_duplicates-AtLevel :
    (vin : List TxIn) (seen : List OutPoint) → AtLevel 100 (check_duplicates vin seen)
unfolding check_duplicates
check_duplicates-AtLevel [] seen = tt
check_duplicates-AtLevel (i ∷ r) seen =
    ground (arith, check_duplicates-AtLevel r (i.prevout ∷ seen))

check_null_prevouts-AtLevel : (vin : List TxIn) → AtLevel 10 (check_null_prevouts vin)
unfolding check_null_prevouts
check_null_prevouts-AtLevel [] = tt
check_null_prevouts-AtLevel (i ∷ r) = ground (arith, check_null_prevouts-AtLevel r)

-- No coinbase, and nothing but a null input is wrong with it after the two checks for empty lists.
pub record IsNullOnly (tx : Transaction) : Type 0 where
  pub fits : serialize_size tx ≤ max_block_size
  pub amounts : All (λ o. IsMoney o.value) tx.vout
  pub total : total_out tx.vout ≤ max_money
  pub distinct : Distinct (map (λ i. i.prevout) tx.vin)
  pub not_coin_base : is_coin_base tx ≡ false
  pub null_input : ¬ All (λ i. i.prevout ≢ Prevout.null) tx.vin

-- What costs 10 and not 100.
abbrev pub IsLight : Transaction → Type 0
IsLight tx = (tx.vin ≡ []) ⊎ ((tx.vout ≡ []) ⊎ IsNullOnly tx)

abbrev pub IsLevel : Transaction → ℕ → Type 0
IsLevel tx n = (IsLight tx × (n ≡ 10)) ⊎ ((¬ IsLight tx) × (n ≡ 100))

abbrev IsCharged : Transaction → Option Reject → Type 0
IsCharged tx none = Unit {0}
IsCharged tx (some r) = IsLevel tx r.level

-- The first check either rejects or passes.
IsCharged-orelse :
    (tx : Transaction) (a b : Option Reject)
    → IsCharged tx a
    → (a ≡ none → IsCharged tx b)
    → IsCharged tx (a orelse b)
IsCharged-orelse tx none b f g = g refl
IsCharged-orelse tx (some r) b f g = f

IsCharged-light :
    (tx : Transaction) (o : Option Reject) → AtLevel 10 o → IsLight tx → IsCharged tx o
IsCharged-light tx none a l = tt
IsCharged-light tx (some r) a l = inl (l, a)

IsCharged-heavy :
    (tx : Transaction) (o : Option Reject)
    → AtLevel 100 o
    → tx.vin ≢ []
    → tx.vout ≢ []
    → (o ≢ none → ¬ IsNullOnly tx)
    → IsCharged tx o
IsCharged-heavy tx none a v w f = tt
IsCharged-heavy tx (some r) a v w f =
    let n : ¬ IsNullOnly tx = f (λ e. cc e) in
    inr ((λ l. elim l [ inl e ↦ v e | inr (inl e) ↦ w e | inr (inr m) ↦ n m ]), a)

-- The two checks for empty lists.
IsCharged-inputs : (tx : Transaction) → IsCharged tx (check_inputs_nonempty tx.vin)
IsCharged-inputs tx = elim (Bool-cases (is_empty tx.vin)) [
  | inl e ↦ rw e (inl (inl (empty_list tx.vin e), refl))
  | inr e ↦ rw e tt
]

IsCharged-outputs : (tx : Transaction) → IsCharged tx (check_outputs_nonempty tx.vout)
IsCharged-outputs tx = elim (Bool-cases (is_empty tx.vout)) [
  | inl e ↦ rw e (inl (inr (inl (empty_list tx.vout e)), refl))
  | inr e ↦ rw e tt
]

-- The last check, where all before it passed.
IsCharged-check_coin_base :
    (tx : Transaction)
    → tx.vin ≢ []
    → tx.vout ≢ []
    → (is_coin_base tx ≡ false → (check_null_prevouts tx.vin ≢ none) → IsNullOnly tx)
    → IsCharged tx (check_coin_base tx)
unfolding check_coin_base
IsCharged-check_coin_base tx v w null_only = elim (Bool-cases (is_coin_base tx)) [
  | inl e ↦
      let bad : Bool = ltb (first_script_size tx.vin) 2 || ltb 100 (first_script_size tx.vin) in
      rw e (
        IsCharged-heavy tx (if bad then reject 100 "bad-cb-length" else none) (ground arith) v w
          (λ fails m. cc (e, m.not_coin_base)))
  | inr e ↦ rw e (elim (Option-cases (check_null_prevouts tx.vin)) [
    | inl passed ↦ rw passed tt
    | inr (r, bad) ↦
        IsCharged-light tx _ (check_null_prevouts-AtLevel tx.vin)
          (inr (inr (null_only e (λ q. cc (bad, q)))))
  ])
]

find_reject-IsCharged : (tx : Transaction) → IsCharged tx (find_reject tx)
unfolding find_reject
find_reject-IsCharged tx = IsCharged-orelse tx _ _ (IsCharged-inputs tx) (λ in_ok.
    IsCharged-orelse tx _ _ (IsCharged-outputs tx) (λ out_ok.
      let v : tx.vin ≢ [] = (is_empty_iff tx.vin).0 (ground (arith, in_ok)) in
      let w : tx.vout ≢ [] = (is_empty_iff tx.vout).0 (ground (arith, out_ok)) in
      let outputs = check_outputs_iff tx.vout 0 (omega arith) in
      let inputs = check_duplicates_iff tx.vin [] in
      IsCharged-orelse tx (check_size tx) _
        (IsCharged-heavy tx _ (check_size-AtLevel tx) v w (λ bad m. bad (ground (arith, m.fits))))
        (λ size_ok.
          IsCharged-orelse tx _ _
            (IsCharged-heavy tx _ (check_outputs-AtLevel tx.vout (pos 0)) v w
              (λ bad m. bad (outputs.1 (m.amounts, omega (arith, m.total)))))
            (λ amounts_ok.
              IsCharged-orelse tx _ _
                (IsCharged-heavy tx _ (check_duplicates-AtLevel tx.vin []) v w
                  (λ bad m. bad (inputs.1 (Fresh-nil tx.vin, m.distinct))))
                (λ distinct_ok. IsCharged-check_coin_base tx v w (λ plain bad. record {
                  fits = ground (arith, size_ok);
                  amounts = (outputs.0 amounts_ok).0;
                  total = omega (arith, (outputs.0 amounts_ok).1);
                  distinct = (inputs.0 distinct_ok).1;
                  not_coin_base = plain;
                  null_input = λ all. bad ((check_null_prevouts_iff tx.vin).1 all);
                }))))))

-- The score that a rejection adds: none in a state that already holds an internal error.
abbrev pub Punished : Transaction → ValidationState → ValidationState → Type 0
Punished tx st st' =
    ((st.mode ≡ mode_error) × (st'.mode ≡ mode_error) × (st'.n_dos ≡ st.n_dos))
    ⊎ ((st.mode ≢ mode_error)
        × (st'.mode ≡ mode_invalid)
        × ((n : ℕ) × IsLevel tx n × (st'.n_dos ≡ st.n_dos + n)))

report_lem :
    (tx : Transaction) (st : ValidationState) (o : Option Reject)
    → IsCharged tx o
    → (((report st o).0 ≡ true) × ((report st o).1 ≡ st))
      ⊎ (((report st o).0 ≡ false)
          × ((report st o).1.reject_code ≡ reject_invalid)
          × Punished tx st (report st o).1)
report_lem tx st none p = inl (refl, refl)
report_lem tx st (some r) p = inr (refl, refl, raise_lem st.mode st.n_dos r.level p)
  where
    raise_lem :
        (m : ModeState) (d n : ℕ)
        → IsLevel tx n
        → ((m ≡ mode_error) × ((raise m d n).0 ≡ mode_error) × ((raise m d n).1 ≡ d))
          ⊎ ((m ≢ mode_error)
              × ((raise m d n).0 ≡ mode_invalid)
              × ((l : ℕ) × IsLevel tx l × ((raise m d n).1 ≡ d + l)))
    raise_lem mode_valid d n l = inr ((λ e. cc e), refl, (n, l, refl))
    raise_lem mode_invalid d n l = inr ((λ e. cc e), refl, (n, l, refl))
    raise_lem mode_error d n l = inl (refl, refl, refl)

-- CheckTransaction leaves the state alone when it accepts. When it rejects, it sets the code
-- REJECT_INVALID. A state that held an internal error keeps it and its score; any other becomes invalid
-- and its score grows by a penalty. This is 10 where the inputs or the outputs are empty, and where the
-- size, the amounts, their total and the distinctness of the prevouts are as demanded, the transaction
-- is no coinbase and an input has the null prevout; it is 100 in every other case.
pub check_transaction_verdict :
    (tx : Transaction) (st : ValidationState)
    → (((check_transaction tx st).0 ≡ true) × ((check_transaction tx st).1 ≡ st))
      ⊎ (((check_transaction tx st).0 ≡ false)
          × ((check_transaction tx st).1.reject_code ≡ reject_invalid)
          × Punished tx st (check_transaction tx st).1)
unfolding check_transaction
check_transaction_verdict tx st = report_lem tx st (find_reject tx) (find_reject-IsCharged tx)
