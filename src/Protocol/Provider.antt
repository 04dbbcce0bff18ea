-- ===== src/Protocol/Provider.antt =====
-- api/go/provider.go: the interface `Provider` and the client that validates before it calls one;
-- sdk/go/providers/noop/noop.go. A provider's state is a parameter, and an error is a text.
use epistemic_engine.Prelude.{String, false, Option, none, some, [], ◌∷◌}
use epistemic_engine.Go.Numbers.{Time}
use epistemic_engine.Go.Text.{or_default}
use epistemic_engine.Protocol.Types.{
  Event, Context, DecisionRequest, DecisionResult, protocol_version,
}
use epistemic_engine.Protocol.Validation.{Invalid, validate_event, validate_decision_request}

pub data Failure : Type 0 where
  refused : Invalid → Failure
  other : String → Failure
  joined : Failure → Failure → Failure

-- A result stands beside the error, as in Go: some callers read it all the same.
pub record Provider (S : Type 0) : Type 0 where
  pub emit : Event → S → Option Failure × S
  pub evaluate : DecisionRequest → S → DecisionResult × Option Failure × S
  pub flush : S → Option Failure × S
  pub shutdown : S → Option Failure × S

abbrev pub zero_context : Context
zero_context = record { decision_id = ""; run_id = ""; correlation = ""; parent_id = "" }

-- `DecisionResult{}`
abbrev pub zero_result : DecisionResult
zero_result = record {
  spec_version = "";
  decision_id = "";
  status = "";
  action_allowed = false;
  reasons = [];
  conditions = [];
  evaluated_at = 0;
  context = zero_context;
  certificate = none;
}

module _ {S : Type 0} (provider : Provider S) where
  -- `Client.Emit` and `Client.Evaluate`
  unfoldable pub client_emit : Event → S → Option Failure × S
  client_emit e s = elim (validate_event e) [
    | some x ↦ (some (refused x), s)
    | none ↦ provider.emit e s
  ]

  unfoldable pub client_evaluate : DecisionRequest → S → DecisionResult × Option Failure × S
  client_evaluate r s = elim (validate_decision_request r) [
    | some x ↦ (zero_result, some (refused x), s)
    | none ↦ provider.evaluate r s
  ]

-- The result of the provider of noop.go at a reading of the clock.
unfoldable pub noop_result : Time → DecisionRequest → DecisionResult
noop_result now r = record {
  spec_version = protocol_version;
  decision_id = or_default r.decision_id "noop";
  status = "indeterminate";
  action_allowed = false;
  reasons =
      record {
        code = "provider_disabled";
        message = "Epistemic evaluation is disabled.";
        subject_id = "";
      }
      ∷ [];
  conditions = [];
  evaluated_at = now;
  context = r.context;
  certificate = none;
}

unfoldable pub noop : {S : Type 0} → Time → Provider S
noop now = record {
  emit = λ e s. (none, s);
  evaluate = λ r s. (noop_result now r, none, s);
  flush = λ s. (none, s);
  shutdown = λ s. (none, s);
}
