-- ===== src/Tests/Transactions.antt =====
-- The rules for transactions and coins on two payments.
use darcoin.Common.{◌≡◌, ◌↔◌, ◌⊎◌, refl, inr, true, false, [], pos, some, none, arith}
use darcoin.Validation.{reject_invalid}
use darcoin.Tx.{Transaction}
use darcoin.Tx.Size.{serialize_size}
use darcoin.Serialize.CompactSize.{compact_size_size}
use darcoin.Tx.Check.{check_transaction}
use darcoin.Tx.Check.Laws.{IsWellFormed, check_transaction_iff}
use darcoin.Tx.Check.Verdict.{Punished, check_transaction_verdict}
use darcoin.Coins.{
  drop_nulls, cleanup_vout, cleanup, fill_undo, TxInUndo, Coins, no_coins, is_available, spend,
  restore_output,
}
use darcoin.Coins.Spend.{Spent, spend-Spent}
use darcoin.Coins.Restore.{restore-spend}
use darcoin.Tests.Data.{payment, funds, paid, fresh_state}

check_transaction_iff_example :
    ((check_transaction payment fresh_state).0 ≡ true) ↔ IsWellFormed payment
check_transaction_iff_example = check_transaction_iff payment fresh_state

payment-IsWellFormed : IsWellFormed payment
unfolding serialize_size compact_size_size
payment-IsWellFormed = record {
  has_inputs = cc;
  has_outputs = cc;
  fits = ground arith;
  amounts = ground arith;
  total = ground arith;
  distinct = ground arith;
  inputs = inr (ground arith);
}

-- Without inputs.
abbrev unfunded : Transaction
unfunded = record payment { vin = [] }

check_transaction_verdict_example :
    (((check_transaction unfunded fresh_state).0 ≡ true)
      × ((check_transaction unfunded fresh_state).1 ≡ fresh_state))
    ⊎ (((check_transaction unfunded fresh_state).0 ≡ false)
        × ((check_transaction unfunded fresh_state).1.reject_code ≡ reject_invalid)
        × Punished unfunded fresh_state (check_transaction unfunded fresh_state).1)
check_transaction_verdict_example = check_transaction_verdict unfunded fresh_state

spend-Spent_example :
    ((spend funds 0 ≡ none) × (is_available funds 0 ≡ false))
    ⊎ ((r : TxInUndo × Coins) × (spend funds 0 ≡ some r) × Spent funds 0 r.0 r.1)
spend-Spent_example = spend-Spent funds 0

abbrev all_spent : Coins
all_spent = record funds { vout = [] }

abbrev funds_undo : TxInUndo
funds_undo = record { txout = paid; coin_base = false; height = 17; version = pos 1 }

restore-spend_example : restore_output no_coins 0 funds_undo ≡ (funds, true)
unfolding spend cleanup cleanup_vout drop_nulls fill_undo
restore-spend_example =
    restore-spend funds all_spent no_coins 0 funds_undo
      (record { trimmed = ground arith; plain = ground arith }) (ground arith) refl
      (inr (refl, refl))
