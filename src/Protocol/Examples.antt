-- ===== src/Protocol/Examples.antt =====
-- Runs of the local provider of sdk/go/providers/local/local.go, and the theorems about it at
-- concrete requests.
use epistemic_engine.Prelude.{ℕ, none, String, true, false, [], ◌∷◌, ◌≡◌, refl, All}
use epistemic_engine.Go.Map.{Map, values, lookup}
use epistemic_engine.Go.Text.{is_blank, trim_space}
use epistemic_engine.Go.Numbers.{pos}
use epistemic_engine.Protocol.Types.{Event, DecisionRequest}
use epistemic_engine.Protocol.Provider.{zero_context, noop, noop_result}
use epistemic_engine.Protocol.Local.{
  emit, events_for, blocks, decide, collect, weigh, hold_pending, hold_unapproved,
}
use epistemic_engine.Protocol.Validation.{
  Invalid, validate_event, is_event_type, validate_events, validate_decision_request, is_mode,
}
use epistemic_engine.Protocol.Composite.{composite}
use epistemic_engine.Protocol.Agreement.{answers, composite-withholds}
use epistemic_engine.Protocol.Persistence.{emit_all, emitted-blocks}
use epistemic_engine.Protocol.Acceptance.{
  FirstInvalid, validate_decision_request-FirstInvalid, validate_decision_request-none,
}
use epistemic_engine.Protocol.Gate.{spec, decide-eq-spec}

abbrev event : String → String → Event
event id type = record {
  spec_version = "0.1";
  id = id;
  type = type;
  source = record { name = "ci"; version = ""; instance = "" };
  subject = record { type = "service"; id = "s" };
  time = 1;
  context = record zero_context { decision_id = "d" };
  ordering = record { sequence = pos 0; partition = "" };
  idempotency_key = "";
  payload = 123 ∷ 125 ∷ [];
  extensions = [];
  unknown = [];
}

abbrev request : DecisionRequest
request = record {
  spec_version = "0.1";
  decision_id = "d";
  recommendation = "Deploy the change.";
  action = record {
    type = "deploy";
    subject = record { type = "service"; id = "s" };
    risk_level = "";
  };
  context = zero_context;
  mode = "enforce";
  requirements = [];
  events = event "1" "claim.supported" ∷ [];
  approval = record { approved = true; actor = "reviewer"; time = "" };
  metadata = [];
}

abbrev failed : Map Event
failed = ("2", event "2" "verification.failed") ∷ []

failure_blocks : (decide 1 request failed).action_allowed ≡ false
unfolding decide events_for values collect weigh blocks hold_pending hold_unapproved
failure_blocks = refl

decide-eq-spec_example : decide 1 request failed ≡ spec 1 request failed
decide-eq-spec_example = decide-eq-spec 1 request failed

emitted-blocks_example :
    (decide 1 request (
      emit_all
        (event "3" "contradiction.resolved" ∷ event "4" "claim.superseded" ∷ [])
        (emit (event "2" "contradiction.detected") (emit_all [] [])).1)).action_allowed
    ≡ false
unfolding emit_all lookup validate_event is_blank trim_space blocks is_event_type
emitted-blocks_example =
    emitted-blocks [] (event "3" "contradiction.resolved" ∷ event "4" "claim.superseded" ∷ [])
      (event "2" "contradiction.detected") 1 request refl refl refl refl refl

composite-withholds_example :
    ((composite (noop {S = ℕ} 1 ∷ noop 2 ∷ [])).evaluate request 0).0.action_allowed ≡ false
unfolding answers noop noop_result
composite-withholds_example =
    composite-withholds request (noop {S = ℕ} 1 ∷ noop 2 ∷ []) 0 (refl, (refl, tt))

abbrev misspelled : DecisionRequest
misspelled = record request {
  events = event "1" "claim.supported" ∷ event "2" "claim.suported" ∷ [];
}

validate_decision_request-FirstInvalid_example :
    FirstInvalid 0 misspelled.events 1 (Invalid.event_type "claim.suported")
unfolding validate_decision_request validate_events validate_event is_blank trim_space is_event_type
    is_mode
validate_decision_request-FirstInvalid_example =
    validate_decision_request-FirstInvalid misspelled 1 (Invalid.event_type "claim.suported") refl

validate_decision_request-none_example : All (λ e. validate_event e ≡ none) request.events
unfolding validate_decision_request validate_events validate_event is_blank trim_space is_event_type
    is_mode
validate_decision_request-none_example = validate_decision_request-none request refl
