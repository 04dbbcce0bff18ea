-- ===== src/Gateway/Failures.antt =====
-- `protocolFailure`, `classifyProtocolValidation` and `writeProtocolError` of
-- apps/control-plane/internal/httpapi/protocol.go, with the message texts of api/go/validate.go. `quote` is `%q` and
-- `decimal` is `%d`. The texts of the other errors, which nothing reads, are left out.
use epistemic_engine.Prelude.{ℕ, String, Bool, false, if◌then◌else◌}
use epistemic_engine.Go.Effect.{Error}
use epistemic_engine.Go.Numbers.{ℤ}
use epistemic_engine.Go.Text.{concat, contains}
use epistemic_engine.Protocol.Validation.{Invalid}

pub record Failure : Type 0 where
  pub status : ℕ
  pub code : String
  pub retryable : Bool

abbrev pub failure : ℕ → String → Failure
failure status code = record { status = status; code = code; retryable = false }

-- The errors of `acceptProtocolEvent`.
pub data Refusal : Type 0 where
  failed : Failure → Refusal
  unknown_parent : String → Refusal
  parent_order : Refusal
  sequence_taken : ℤ → String → String → Refusal
  service : Error → Refusal

-- `writeProtocolError`
unfoldable pub failure_of : Refusal → Failure
failure_of (failed f) = f
failure_of _ = failure 400 "invalid_message"

module _ (quote : String → String) (decimal : ℕ → String) where
  -- `err.Error()`
  unfoldable pub message : Invalid → String
  message (Invalid.spec_version v) = concat "unsupported spec_version " (quote v)
  message Invalid.event_id = "event id is required"
  message (Invalid.event_type t) = concat "unsupported event type " (quote t)
  message Invalid.event_source = "event source.name is required"
  message Invalid.event_subject = "event subject type and id are required"
  message Invalid.event_time = "event time is required"
  message Invalid.event_data = "event data is required"
  message Invalid.event_sequence = "event ordering.sequence cannot be negative"
  message Invalid.recommendation = "recommendation is required"
  message Invalid.action = "action type and subject are required"
  message (Invalid.mode m) = concat "unsupported mode " (quote m)
  message (Invalid.at_event index x) =
      concat "events[" (concat (decimal index) (concat "]: " (message x)))

  unfoldable pub classify : Invalid → Failure
  unfolding message
  classify x =
      if contains "unsupported spec_version" (message x)
      then failure 400 "unsupported_version"
      else if contains "unsupported event type" (message x)
      then failure 400 "unsupported_event_type"
      else failure 400 "invalid_message"
