-- ===== src/Tx/Output.antt =====
-- CTxOut of core.h, and the amounts of util.h and core.h.
use darcoin.Common.{
  ℕ, ◌*◌, ◌≡◌, ◌↔◌, Bool, true, not, ◌&&◌, [], ℤ, pos, negsuc, ltb_ℤ, eqb_ℤ, eqb_ℤ_iff, ◌≤ℤ◌, Bytes,
  bytes_eq, bytes_eq_iff, arith,
}

pub record TxOut : Type 0 where
  pub value : ℤ
  pub script_pub_key : Bytes

-- SetNull
abbrev pub null : TxOut
null = record { value = negsuc 0; script_pub_key = [] }

-- IsNull
abbrev pub is_null : TxOut → Bool
is_null o = eqb_ℤ o.value (negsuc 0)

-- operator==
unfoldable pub eq : TxOut → TxOut → Bool
eq a b = eqb_ℤ a.value b.value && bytes_eq a.script_pub_key b.script_pub_key

pub eq_iff : (a b : TxOut) → (eq a b ≡ true) ↔ (a ≡ b)
unfolding eq
eq_iff a b =
    ground (arith, eqb_ℤ_iff a.value b.value, bytes_eq_iff a.script_pub_key b.script_pub_key)

-- COIN and MAX_MONEY
abbrev pub coin : ℕ
coin = 100000000

abbrev pub max_money : ℕ
max_money = 21000000000 * coin

-- MoneyRange
abbrev pub money_range : ℤ → Bool
money_range v = not (ltb_ℤ v (pos 0)) && not (ltb_ℤ (pos max_money) v)

abbrev pub IsMoney : ℤ → Type 0
IsMoney v = (pos 0 ≤ℤ v) × (v ≤ℤ pos max_money)

pub money_range_iff : (v : ℤ) → (money_range v ≡ true) ↔ IsMoney v
money_range_iff v = ground arith
