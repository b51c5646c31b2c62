-- ===== src/Interp/Verify.antt =====
-- VerifyScript of script.cpp.
pub mod Laws
use darcoin.Common.{
  Bool, true, false, ◌&&◌, Option, none, some, List, [], ◌∷◌, if◌then◌else◌, Bytes,
}
use darcoin.Script.{is_pay_to_script_hash, is_push_only}
use darcoin.Script.Num.{cast_to_bool}
use darcoin.Interp.Stack.{Items}
use darcoin.Interp.Canonical.{Flags}
use darcoin.Interp.Signatures.{Crypto}
use darcoin.Interp.{eval_script}

-- VerifyScript returns true or false, or its assertion fails.
pub data Verdict : Type 0 where
  valid invalid aborted : Verdict

-- !stack.empty() and CastToBool(stack.back()), where EvalScript has returned true
abbrev pub leaves_true : Option Items → Bool
leaves_true none = false
leaves_true (some []) = false
leaves_true (some (v ∷ s)) = cast_to_bool v

abbrev pub verdict : Bool → Verdict
verdict true = valid
verdict false = invalid

-- The script that stackCopy carries is run on the rest of it.
unfoldable pub verify_redeem : Crypto → Flags → Items → Verdict
verify_redeem c f [] = aborted
verify_redeem c f (script ∷ s) = verdict (leaves_true (eval_script c f s script))

-- From the second EvalScript on; `s` is the stack that scriptSig leaves, and so stackCopy.
unfoldable pub verify_output : Crypto → Flags → Bytes → Bytes → Items → Verdict
verify_output c f sig key s =
    if leaves_true (eval_script c f s key)
    then if f.p2sh && is_pay_to_script_hash key
      then if is_push_only sig then verify_redeem c f s else invalid
      else valid
    else invalid

-- if (!EvalScript(stack, scriptSig, ...)) return false
abbrev pub after_input : Option Items → (Items → Verdict) → Verdict
after_input none g = invalid
after_input (some s) g = g s

-- VerifyScript
unfoldable pub verify_script : Crypto → Flags → Bytes → Bytes → Verdict
verify_script c f sig key = after_input (eval_script c f [] sig) (verify_output c f sig key)
