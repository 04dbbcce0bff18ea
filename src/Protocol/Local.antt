-- ===== src/Protocol/Local.antt =====
-- sdk/go/providers/local/local.go: the provider that evaluates in the process. Its state is the map
-- of events by identifier; `now` is a reading of the clock.
use epistemic_engine.Prelude.{
  Bool, true, false, not, Option, none, some, List, [], ◌∷◌, ◌++◌, ◌&&◌, ◌||◌, ◌==◌, any_of,
  if◌then◌else◌,
}
use epistemic_engine.Go.Map.{Map, insert, values, has_key}
use epistemic_engine.Go.Numbers.{Time}
use epistemic_engine.Go.Text.{or_default}
use epistemic_engine.Protocol.Types.{
  Event, DecisionRequest, DecisionResult, Reason, protocol_version,
}
use epistemic_engine.Protocol.Validation.{validate_event, validate_decision_request}
use epistemic_engine.Protocol.Provider.{Provider, Failure, refused, zero_result}

unfoldable pub emit : Event → Map Event → Option Failure × Map Event
emit e events = elim (validate_event e) [
  | some x ↦ (some (refused x), events)
  | none ↦ (none, if has_key e.id events then events else insert e.id e events)
]

-- The loops that collect the events to evaluate, from those seen: the request's, and those of the
-- provider that belong to the decision.
unfoldable pub collect : (Event → Bool) → List Event → List Event → List Event
collect wanted seen [] = seen
collect wanted seen (e ∷ es) =
    collect wanted
      (if not (any_of (λ (s : Event). s.id == e.id) seen) && wanted e then seen ++ e ∷ [] else seen)
      es

unfoldable pub events_for : DecisionRequest → Map Event → List Event
unfolding collect
events_for r events =
    collect (λ e. r.decision_id == "" || e.context.decision_id == r.decision_id)
      (collect (λ e. true) [] r.events) (values events)

-- The cases of the `switch` on `event.Type` that change something.
unfoldable pub blocks : Event → Bool
blocks e =
    e.type == "claim.contradicted"
    || e.type == "claim.rejected"
    || e.type == "contradiction.detected"
    || e.type == "verification.failed"

unfoldable pub pends : Event → Bool
pends e =
    e.type == "verification.requested" || e.type == "claim.declared" || e.type == "unknown.declared"

abbrev pub contradicted : Event → Reason
contradicted e = record {
  code = "contradicted";
  message = "A blocking contradiction or failed verification is unresolved.";
  subject_id = e.subject.id;
}

abbrev pub verification_required : Reason
verification_required = record {
  code = "verification_required";
  message = "A critical portable requirement remains unresolved.";
  subject_id = "";
}

-- The loop over the events, on the result and `pending`.
unfoldable pub weigh : List Event → DecisionResult → Bool → DecisionResult × Bool
weigh [] result pending = (result, pending)
weigh (e ∷ es) result pending =
    weigh es
      (if blocks e
        then record result {
          status = "block";
          action_allowed = false;
          reasons = result.reasons ++ contradicted e ∷ [];
        }
        else result)
      (pending || not (blocks e) && pends e)

-- `if result.Status != "block" && pending { ... }`
unfoldable pub hold_pending : DecisionResult → Bool → DecisionResult
hold_pending result pending =
    if not (result.status == "block") && pending
    then record result {
      status = "indeterminate";
      action_allowed = false;
      reasons = result.reasons ++ verification_required ∷ [];
    }
    else result

-- `if result.Status == "allow" && !request.Approval.Approved { ... }`
unfoldable pub hold_unapproved : DecisionRequest → DecisionResult → DecisionResult
hold_unapproved r result =
    if result.status == "allow" && not r.approval.approved
    then record result {
      action_allowed = false;
      conditions =
          result.conditions ++ "Human approval is required before consequential action." ∷ [];
    }
    else result

abbrev pub initial_result : Time → DecisionRequest → DecisionResult
initial_result now r = record {
  spec_version = protocol_version;
  decision_id = or_default r.decision_id "local-decision";
  status = "allow";
  action_allowed = r.approval.approved;
  reasons = [];
  conditions = [];
  evaluated_at = now;
  context = r.context;
  certificate = none;
}

unfoldable pub decide : Time → DecisionRequest → Map Event → DecisionResult
unfolding weigh hold_pending hold_unapproved
decide now r events =
    let (result, pending) = weigh (events_for r events) (initial_result now r) false in
    hold_unapproved r (hold_pending result pending)

unfoldable pub evaluate :
    Time → DecisionRequest → Map Event → DecisionResult × Option Failure × Map Event
evaluate now r events = elim (validate_decision_request r) [
  | some x ↦ (zero_result, some (refused x), events)
  | none ↦ (decide now r events, none, events)
]

unfoldable pub local : Time → Provider (Map Event)
unfolding emit evaluate
local now = record {
  emit = emit;
  evaluate = evaluate now;
  flush = λ s. (none, s);
  shutdown = λ s. (none, s);
}
