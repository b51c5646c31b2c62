-- ===== src/Interp/Numeric.antt =====
-- The comparisons and the numeric operations of EvalScript (script.cpp).
use darcoin.Common.{
  Bool, true, false, not, ◌&&◌, ◌||◌, Option, none, some, [], ◌∷◌, ℤ, pos, pos_part, neg_part,
  sub_ℕ, if◌then◌else◌, ltb_ℤ, eqb_ℤ, add64, sub64, Bytes, bytes_eq,
}
use darcoin.Script.Num.{serialize, script_num, cast_to_bool}
use darcoin.Interp.Stack.{Items, with_num}

-- vchTrue and vchFalse
abbrev pub bool_bytes : Bool → Bytes
bool_bytes true = 1 ∷ []
bool_bytes false = []

-- A result that OP_...VERIFY takes off the stack again, or fails on.
abbrev pub push_result : Bool → Bool → Items → Option Items
push_result false result s = some (bool_bytes result ∷ s)
push_result true true s = some s
push_result true false s = none

-- OP_EQUAL and OP_EQUALVERIFY
unfoldable pub equal : Bool → Items → Option Items
equal verify (b ∷ a ∷ s) = push_result verify (bytes_eq a b) s
equal verify (b ∷ []) = none
equal verify [] = none

pub data UnaryOp : Type 0 where
  op_1add op_1sub op_negate op_abs op_not op_0notequal : UnaryOp

-- A bool as a CScriptNum.
abbrev pub bool_num : Bool → ℤ
bool_num true = pos 1
bool_num false = pos 0

-- -bn, on a value that is not the least int64_t
abbrev pub opposite : ℤ → ℤ
opposite v = sub_ℕ (neg_part v) (pos_part v)

unfoldable pub unary : UnaryOp → ℤ → ℤ
unary op_1add v = add64 v (pos 1)
unary op_1sub v = sub64 v (pos 1)
unary op_negate v = opposite v
unary op_abs v = if ltb_ℤ v (pos 0) then opposite v else v
unary op_not v = bool_num (eqb_ℤ v (pos 0))
unary op_0notequal v = bool_num (not (eqb_ℤ v (pos 0)))

unfoldable pub run_unary : UnaryOp → Items → Option Items
run_unary o [] = none
run_unary o (a ∷ s) = with_num (script_num a) (λ v. some (serialize (unary o v) ∷ s))

pub data BinaryOp : Type 0 where
  op_add op_sub op_booland op_boolor op_numequal op_numequalverify op_numnotequal : BinaryOp
  op_lessthan op_greaterthan op_lessthanorequal op_greaterthanorequal op_min op_max : BinaryOp

unfoldable pub binary : BinaryOp → ℤ → ℤ → ℤ
binary op_add a b = add64 a b
binary op_sub a b = sub64 a b
binary op_booland a b = bool_num (not (eqb_ℤ a (pos 0)) && not (eqb_ℤ b (pos 0)))
binary op_boolor a b = bool_num (not (eqb_ℤ a (pos 0)) || not (eqb_ℤ b (pos 0)))
binary op_numequal a b = bool_num (eqb_ℤ a b)
binary op_numequalverify a b = bool_num (eqb_ℤ a b)
binary op_numnotequal a b = bool_num (not (eqb_ℤ a b))
binary op_lessthan a b = bool_num (ltb_ℤ a b)
binary op_greaterthan a b = bool_num (ltb_ℤ b a)
binary op_lessthanorequal a b = bool_num (not (ltb_ℤ b a))
binary op_greaterthanorequal a b = bool_num (not (ltb_ℤ a b))
binary op_min a b = if ltb_ℤ a b then a else b
binary op_max a b = if ltb_ℤ b a then a else b

-- OP_NUMEQUALVERIFY looks at the result and takes it off.
abbrev pub finish_binary : BinaryOp → Bytes → Items → Option Items
finish_binary op_numequalverify r s = if cast_to_bool r then some s else none
finish_binary _ r s = some (r ∷ s)

unfoldable pub run_binary : BinaryOp → Items → Option Items
run_binary o (b ∷ a ∷ s) =
    with_num (script_num a)
      (λ v. with_num (script_num b) (λ w. finish_binary o (serialize (binary o v w)) s))
run_binary o (b ∷ []) = none
run_binary o [] = none

-- OP_WITHIN
unfoldable pub within : Items → Option Items
within (c ∷ b ∷ a ∷ s) = with_num (script_num a) (λ v.
    with_num (script_num b) (λ lo.
      with_num (script_num c) (λ hi. some (bool_bytes (not (ltb_ℤ v lo) && ltb_ℤ v hi) ∷ s))))
within (c ∷ b ∷ []) = none
within (c ∷ []) = none
within [] = none
