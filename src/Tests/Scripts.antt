-- ===== src/Tests/Scripts.antt =====
-- Scripts that push, and a pay-to-script-hash key.
use darcoin.Common.{ℕ, ◌≤◌, ◌≡◌, refl, true, some, [], ◌∷◌, ◌++◌, replicate, Bytes, arith}
use darcoin.Script.{
  get_op, push_data, get_sig_op_count, is_pay_to_script_hash, is_push_only, sig_op_count_with,
}
use darcoin.Serialize.{write_le}
use darcoin.Script.Laws.{get_op-push_data, push_all, sig_op_count_with-push_all}

abbrev redeem : Bytes
redeem = 0x52 ∷ 0x53 ∷ 0xae ∷ []

abbrev key : Bytes
key = 0xa9 ∷ 0x14 ∷ (replicate 20 7 ++ 0x87 ∷ [])

get_op-push_data_example :
    (c : ℕ) × (c ≤ 0x4e)
    × (get_op (push_data redeem ++ 0xac ∷ [])
        ≡ some (record { opcode = c; pushed = redeem; rest = 0xac ∷ [] }))
get_op-push_data_example = get_op-push_data redeem (0xac ∷ []) (ground arith)

sig_op_count_with-push_all_example :
    (is_push_only (push_all ((9 ∷ []) ∷ redeem ∷ [])) ≡ true)
    × (sig_op_count_with key (push_all ((9 ∷ []) ∷ redeem ∷ [])) ≡ get_sig_op_count true redeem)
unfolding is_pay_to_script_hash push_data write_le
sig_op_count_with-push_all_example =
    sig_op_count_with-push_all key (9 ∷ []) (redeem ∷ []) refl (ground arith)
