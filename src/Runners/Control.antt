-- ===== src/Runners/Control.antt =====
-- `CancellationToken` and `RunnerControl` of pmqa/runners/base.py. The lock makes each operation of a
-- token one step, so that a token is whether it is cancelled.
use pmqa.Base.{Bool, true, false, Option, none, some}

pub record CancellationToken : Type 0 where
  pub cancelled : Bool

-- `CancellationToken.__init__`
abbrev pub cancellation_token : CancellationToken
cancellation_token = record { cancelled = false }

-- `CancellationToken.cancel`
unfoldable pub cancel : CancellationToken → CancellationToken
cancel token = record token { cancelled = true }

pub record RunnerControl : Type 0 where
  pub token : CancellationToken

-- `RunnerControl.__init__`
unfoldable pub runner_control : Option CancellationToken → RunnerControl
runner_control none = record { token = cancellation_token }
runner_control (some given) = record { token = given }

-- `RunnerControl.is_cancellation_requested`
abbrev pub is_cancellation_requested : RunnerControl → Bool
is_cancellation_requested control = control.token.cancelled
