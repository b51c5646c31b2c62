-- ===== src/Tx/Input.antt =====
-- CTxIn of core.h.
use darcoin.Common.{ℕ, Bool, ◌&&◌, ◌==◌, Bytes, bytes_eq}
use darcoin.Tx.Prevout
use darcoin.Tx.Prevout.{OutPoint, uint_max}

pub record TxIn : Type 0 where
  pub prevout : OutPoint
  pub txaddress : Bytes
  pub script_sig : Bytes
  pub sequence : ℕ

-- IsFinal
abbrev pub is_final : TxIn → Bool
is_final i = i.sequence == uint_max

-- operator==, which leaves out the address
unfoldable pub eq : TxIn → TxIn → Bool
eq a b =
    Prevout.eq a.prevout b.prevout
    && (bytes_eq a.script_sig b.script_sig && a.sequence == b.sequence)
