-- ===== src/Script.antt =====
-- CScript of script.h and script.cpp: reading and pushing, and the counts that walk over a script.
pub mod Num
pub mod Delete
pub mod Laws
pub mod Termination
use darcoin.Common.{
  ℕ, zero, suc, ◌+◌, ◌-◌, ◌%◌, ◌^◌, Bool, true, false, ◌&&◌, ◌||◌, Option, none, some, List, [],
  ◌∷◌, ◌++◌, ltb, leb, ◌==◌, if◌then◌else◌, length, get_elem?, take, drop, Bytes,
}
use darcoin.Serialize.{Read, ok, fail, write_le, read_le}

-- What GetOp gives: opcodeRet, vchRet, and the script from pc on.
pub record Op : Type 0 where
  pub opcode : ℕ
  pub pushed : Bytes
  pub rest : Bytes

-- nSize and the script behind it. 0x4c, 0x4d and 0x4e are OP_PUSHDATA1, OP_PUSHDATA2 and OP_PUSHDATA4.
abbrev pub operand_size : ℕ → Bytes → Read ℕ
operand_size c s =
    if ltb c 0x4c
    then ok c s
    else if c == 0x4c
    then read_le 1 s
    else if c == 0x4d
    then read_le 2 s
    else read_le 4 s

abbrev pub take_operand : ℕ → Read ℕ → Option Op
take_operand c (fail e) = none
take_operand c (ok size s) =
    if ltb (length s % 2 ^ 32) size
    then none
    else some (record { opcode = c; pushed = take size s; rest = drop size s })

-- GetOp2 from pc on; `none` is false, after which no caller goes on.
unfoldable pub get_op : Bytes → Option Op
get_op [] = none
get_op (c ∷ s) =
    if leb c 0x4e
    then take_operand c (operand_size c s)
    else some (record { opcode = c; pushed = []; rest = s })

-- What operator<< writes before the bytes.
abbrev pub push_prefix : ℕ → Bytes
push_prefix n =
    if ltb n 0x4c
    then write_le 1 n
    else if leb n 0xff
    then 0x4c ∷ write_le 1 n
    else if leb n 0xffff
    then 0x4d ∷ write_le 2 n
    else 0x4e ∷ write_le 4 n

-- operator<<(b), what it appends to the script
unfoldable pub push_data : Bytes → Bytes
push_data b = push_prefix (length b) ++ b

-- DecodeOP_N, for OP_0 (0x00) and OP_1 (0x51) to OP_16 (0x60)
abbrev pub decode_op_n : ℕ → ℕ
decode_op_n c = if c == 0 then 0 else c - 0x50

-- One round of GetSigOpCount(fAccurate) on n; 0xac to 0xaf are OP_CHECKSIG, OP_CHECKSIGVERIFY,
-- OP_CHECKMULTISIG and OP_CHECKMULTISIGVERIFY.
abbrev pub count_op : Bool → ℕ → ℕ → ℕ → ℕ
count_op accurate last c n =
    if c == 0xac || c == 0xad
    then (n + 1) % 2 ^ 32
    else if c == 0xae || c == 0xaf
    then (if accurate && (leb 0x51 last && leb last 0x60)
        then (n + decode_op_n last) % 2 ^ 32
        else (n + 20) % 2 ^ 32)
    else n

abbrev pub with_op {ℓ} : {A : Type ℓ} → Option Op → A → (Op → A) → A
with_op none x f = x
with_op (some op) x f = f op

-- The loop of GetSigOpCount. GetOp moves pc, so that the length of the script is rounds enough.
pub sig_op_loop : ℕ → Bool → Bytes → ℕ → ℕ → ℕ
sig_op_loop zero accurate s last n = n
sig_op_loop (suc fuel) accurate s last n =
    with_op (get_op s) n
      (λ op. sig_op_loop fuel accurate op.rest op.opcode (count_op accurate last op.opcode n))

-- GetSigOpCount(fAccurate); 0xff is OP_INVALIDOPCODE
pub get_sig_op_count : Bool → Bytes → ℕ
unfolding sig_op_loop
get_sig_op_count accurate s = sig_op_loop (length s) accurate s 0xff 0

abbrev pub at : Bytes → ℕ → ℕ → Bool
at s i b = elim (get_elem? s i) [ none ↦ false | some x ↦ x == b ]

-- IsPayToScriptHash; 0xa9 is OP_HASH160, 0x87 OP_EQUAL
unfoldable pub is_pay_to_script_hash : Bytes → Bool
is_pay_to_script_hash s = length s == 23 && (at s 0 0xa9 && (at s 1 0x14 && at s 22 0x87))

-- The loop of IsPushOnly, and of GetSigOpCount(scriptSig): the last data pushed, or none where GetOp
-- fails or an opcode is above OP_16.
unfoldable pub push_loop : ℕ → Bytes → Bytes → Option Bytes
push_loop fuel [] pushed = some pushed
push_loop zero (c ∷ s) pushed = none
push_loop (suc fuel) (c ∷ s) pushed =
    with_op (get_op (c ∷ s)) none (λ op.
      let more = push_loop fuel op.rest op.pushed in if ltb 0x60 op.opcode then none else more)

abbrev pub is_pushed : Option Bytes → Bool
is_pushed none = false
is_pushed (some pushed) = true

-- IsPushOnly
unfoldable pub is_push_only : Bytes → Bool
unfolding push_loop
is_push_only s = is_pushed (push_loop (length s) s [])

abbrev pub count_pushed : Option Bytes → ℕ
unfolding get_sig_op_count
count_pushed none = 0
count_pushed (some pushed) = get_sig_op_count true pushed

-- GetSigOpCount(scriptSig), of the script `key`
pub sig_op_count_with : Bytes → Bytes → ℕ
unfolding push_loop count_pushed
sig_op_count_with key sig =
    if is_pay_to_script_hash key
    then count_pushed (push_loop (length sig) sig [])
    else get_sig_op_count true key
