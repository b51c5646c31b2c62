-- ===== src/Validation.antt =====
-- CValidationState of main.h: the verdict on a block or a transaction, with the penalty for the peer
-- that sent it.
use Prim.Native.String.{String}
use darcoin.Common.{ℕ, ◌+◌, Bool, false}

-- enum mode_state
pub data ModeState : Type 0 where
  mode_valid mode_invalid mode_error : ModeState

-- chRejectCode is not set by the constructor, so it is given to `validation_state`.
pub record ValidationState : Type 0 where
  pub mode : ModeState
  pub n_dos : ℕ
  pub reject_reason : String
  pub reject_code : ℕ
  pub corruption_possible : Bool

-- CValidationState()
abbrev pub validation_state : ℕ → ValidationState
validation_state garbage = record {
  mode = mode_valid;
  n_dos = 0;
  reject_reason = "";
  reject_code = garbage;
  corruption_possible = false;
}

abbrev pub raise : ModeState → ℕ → ℕ → ModeState × ℕ
raise mode_error n level = (mode_error, n)
raise _ n level = (mode_invalid, n + level)

-- DoS(level, ret, chRejectCodeIn, strRejectReasonIn, corruptionIn). The score is an int, which a
-- few calls for one object do not overflow.
abbrev pub dos : ValidationState → ℕ → Bool → ℕ → String → Bool → Bool × ValidationState
dos st level ret code reason corruption =
    let r = raise st.mode st.n_dos level in
    (
      ret,
      record {
        mode = r.0;
        n_dos = r.1;
        reject_reason = reason;
        reject_code = code;
        corruption_possible = corruption;
      },
    )

-- Invalid(ret, code, reason)
abbrev pub invalid : ValidationState → Bool → ℕ → String → Bool × ValidationState
invalid st ret code reason = dos st 0 ret code reason false

abbrev pub error_reason : ModeState → String → String → String
error_reason mode_valid old new = new
error_reason _ old new = old

-- Error(reason)
abbrev pub error : ValidationState → String → Bool × ValidationState
error st reason = (
  false,
  record st { mode = mode_error; reject_reason = error_reason st.mode st.reject_reason reason },
)

-- The reject codes of main.h.
abbrev pub reject_invalid : ℕ
reject_invalid = 0x10

abbrev pub reject_nonstandard : ℕ
reject_nonstandard = 0x40
