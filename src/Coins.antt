-- ===== src/Coins.antt =====
-- CCoins of coins.h and coins.cpp: the unspent outputs of one transaction; CTxInUndo of core.h.
pub mod Spend
pub mod Restore
pub mod Clean
pub mod Equality
use darcoin.Common.{
  ℕ, zero, suc, ◌+◌, ◌-◌, Bool, true, false, not, ◌&&◌, ◌||◌, Option, none, some, List, [], ◌∷◌,
  ◌++◌, map, reverse, ℤ, pos, ltb, ◌==◌, if◌then◌else◌, eqb_ℤ, length, get_elem?, set, replicate,
  all, Bytes,
}
use darcoin.Tx.{Transaction, is_coin_base}
use darcoin.Tx.Output
use darcoin.Tx.Output.{TxOut}

-- nHeight is an int that is never negative.
pub record Coins : Type 0 where
  pub coin_base : Bool
  pub vout : List TxOut
  pub height : ℕ
  pub version : ℤ

-- CCoins()
abbrev pub no_coins : Coins
no_coins = record { coin_base = false; vout = []; height = 0; version = pos 0 }

pub record TxInUndo : Type 0 where
  pub txout : TxOut
  pub coin_base : Bool
  pub height : ℕ
  pub version : ℤ

-- CTxInUndo(txoutIn)
abbrev pub undo_of : TxOut → TxInUndo
undo_of o = record { txout = o; coin_base = false; height = 0; version = pos 0 }

-- while (size > 0 && back().IsNull()) pop_back(), on the outputs in reverse order.
unfoldable pub drop_nulls : List TxOut → List TxOut
drop_nulls [] = []
drop_nulls (o ∷ r) = if Output.is_null o then drop_nulls r else o ∷ r

unfoldable pub cleanup_vout : List TxOut → List TxOut
cleanup_vout vout = reverse (drop_nulls (reverse vout))

-- Cleanup
unfoldable pub cleanup : Coins → Coins
cleanup c = record c { vout = cleanup_vout c.vout }

-- CScript::IsUnspendable; 0x6a is OP_RETURN.
abbrev pub is_unspendable : Bytes → Bool
is_unspendable [] = false
is_unspendable (b ∷ s) = b == 0x6a

pub clear_output : TxOut → TxOut
clear_output o = if is_unspendable o.script_pub_key then Output.null else o

-- ClearUnspendable
pub clear_unspendable : Coins → Coins
clear_unspendable c = cleanup (record c { vout = map clear_output c.vout })

-- CCoins(tx, nHeightIn)
pub coins_of : Transaction → ℕ → Coins
coins_of tx height =
    clear_unspendable (record {
      coin_base = is_coin_base tx;
      vout = tx.vout;
      height = height;
      version = tx.version;
    })

-- `pos < vout.size() && !vout[pos].IsNull()`
abbrev pub is_unspent : Option TxOut → Bool
is_unspent none = false
is_unspent (some o) = not (Output.is_null o)

-- IsAvailable
abbrev pub is_available : Coins → ℕ → Bool
is_available c n = is_unspent (get_elem? c.vout n)

-- IsPruned
abbrev pub is_pruned : Coins → Bool
is_pruned c = all Output.is_null c.vout

pub vout_eq : List TxOut → List TxOut → Bool
vout_eq [] [] = true
vout_eq [] (y ∷ ys) = false
vout_eq (x ∷ xs) [] = false
vout_eq (x ∷ xs) (y ∷ ys) = Output.eq x y && vout_eq xs ys

abbrev pub bool_eq : Bool → Bool → Bool
bool_eq true b = b
bool_eq false b = not b

-- operator==
pub coins_eq : Coins → Coins → Bool
coins_eq a b =
    if is_pruned a && is_pruned b
    then true
    else bool_eq a.coin_base b.coin_base
      && (a.height == b.height && (eqb_ℤ a.version b.version && vout_eq a.vout b.vout))

abbrev pub is_nil {ℓ} : {A : Type ℓ} → List A → Bool
is_nil [] = true
is_nil (x ∷ xs) = false

-- The undo record gets the metadata where the transaction has no output left.
unfoldable pub fill_undo : TxInUndo → Coins → TxInUndo
fill_undo u c =
    if is_nil c.vout
    then record u { height = c.height; coin_base = c.coin_base; version = c.version }
    else u

abbrev pub spend_output : Coins → ℕ → TxOut → TxInUndo × Coins
spend_output c n o =
    let c' = cleanup (record c { vout = set c.vout n Output.null }) in
    (fill_undo (undo_of o) c', c')

-- Spend(out, undo): `none` where it returns false and changes nothing.
unfoldable pub spend : Coins → ℕ → Option (TxInUndo × Coins)
unfolding fill_undo
spend c n = elim (get_elem? c.vout n) [
  | none ↦ none
  | some o ↦ if Output.is_null o then none else some (spend_output c n o)
]

-- Spend(nPos) makes an undo record that it drops.
pub spend_position : Coins → ℕ → Option Coins
unfolding spend
spend_position c n = elim (spend c n) [ none ↦ none | some (u, c') ↦ some c' ]

-- if (vout.size() < n + 1) vout.resize(n + 1), with n + 1 taken without its wrap-around: for the n of
-- 2^32 - 1, a null prevout's, the source has 0 here.
pub extend_vout : List TxOut → ℕ → List TxOut
extend_vout vout n =
    if ltb (length vout) (n + 1) then vout ++ replicate (n + 1 - length vout) Output.null else vout

-- The coins to which DisconnectBlock (main.cpp) adds an output: new ones with the metadata of the
-- undo record, if it has a height, or those of the view.
pub restore_base : Coins → TxInUndo → Coins
restore_base c undo = if undo.height == 0 then c else record {
  coin_base = undo.coin_base;
  vout = [];
  height = undo.height;
  version = undo.version;
}

-- The body of the loop over the inputs in DisconnectBlock, on the coins of the prevout: the restored
-- coins, and false where the source logs an inconsistency and clears fClean.
pub restore_output : Coins → ℕ → TxInUndo → Coins × Bool
unfolding extend_vout restore_base
restore_output c n undo =
    let base = restore_base c undo in
    (
      record base { vout = set (extend_vout base.vout n) n undo.txout },
      (if undo.height == 0 then not (is_pruned c) else is_pruned c) && not (is_available base n),
    )
