-- ===== src/Protocol/Validation.antt =====
-- api/go/validate.go: `EventTypes`, `ValidateEvent`, `ValidateDecisionRequest`.
use epistemic_engine.Prelude.{
  ℕ, suc, String, Bool, not, Option, none, some, List, [], ◌∷◌, ◌||◌, ◌==◌, any_of, is_empty,
  if◌then◌else◌,
}
use epistemic_engine.Go.Numbers.{is_negative, time_is_zero}
use epistemic_engine.Go.Text.{is_blank}
use epistemic_engine.Protocol.Types.{Event, DecisionRequest, protocol_version}

abbrev pub event_types : List String
event_types =
    "decision.started" ∷ "decision.requested" ∷ "decision.evaluated" ∷ "decision.blocked"
    ∷ "decision.approved" ∷ "decision.completed" ∷ "claim.declared" ∷ "claim.updated"
    ∷ "claim.supported" ∷ "claim.contradicted" ∷ "claim.superseded" ∷ "claim.rejected"
    ∷ "evidence.discovered" ∷ "evidence.attached" ∷ "evidence.expired" ∷ "evidence.invalidated"
    ∷ "assumption.declared" ∷ "assumption.resolved" ∷ "unknown.declared" ∷ "unknown.resolved"
    ∷ "contradiction.detected" ∷ "contradiction.resolved" ∷ "verification.requested"
    ∷ "verification.approved" ∷ "verification.started" ∷ "verification.completed"
    ∷ "verification.failed" ∷ "proof.issued" ∷ "proof.revoked" ∷ "proof.superseded" ∷ []

-- `eventTypeSet[t]`
unfoldable pub is_event_type : String → Bool
is_event_type t = any_of (λ e. e == t) event_types

-- The errors of the two functions.
pub data Invalid : Type 0 where
  spec_version : String → Invalid
  event_id event_source event_subject event_time event_data event_sequence : Invalid
  event_type : String → Invalid
  recommendation action : Invalid
  mode : String → Invalid
  at_event : ℕ → Invalid → Invalid

unfoldable pub validate_event : Event → Option Invalid
validate_event e =
    if not (e.spec_version == protocol_version)
    then some (Invalid.spec_version e.spec_version)
    else if is_blank e.id
    then some Invalid.event_id
    else if not (is_event_type e.type)
    then some (Invalid.event_type e.type)
    else if is_blank e.source.name
    then some Invalid.event_source
    else if e.subject.type == "" || e.subject.id == ""
    then some Invalid.event_subject
    else if time_is_zero e.time
    then some Invalid.event_time
    else if is_empty e.payload
    then some Invalid.event_data
    else if is_negative e.ordering.sequence
    then some Invalid.event_sequence
    else none

-- The loop over `request.Events` from an index on.
unfoldable pub validate_events : ℕ → List Event → Option Invalid
validate_events index [] = none
validate_events index (e ∷ es) =
    let rest = validate_events (suc index) es in
    elim (validate_event e) [ some x ↦ some (Invalid.at_event index x) | none ↦ rest ]

unfoldable pub is_mode : String → Bool
is_mode m = m == "" || m == "observe" || m == "advise" || m == "enforce"

unfoldable pub validate_decision_request : DecisionRequest → Option Invalid
validate_decision_request r =
    if not (r.spec_version == protocol_version)
    then some (Invalid.spec_version r.spec_version)
    else if is_blank r.recommendation
    then some Invalid.recommendation
    else if r.action.type == "" || r.action.subject.type == "" || r.action.subject.id == ""
    then some Invalid.action
    else if not (is_mode r.mode)
    then some (Invalid.mode r.mode)
    else validate_events 0 r.events
