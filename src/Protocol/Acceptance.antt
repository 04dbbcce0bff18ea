-- ===== src/Protocol/Acceptance.antt =====
-- Which decision requests `ValidateDecisionRequest` of api/go/validate.go accepts, and which event an
-- error names.
use epistemic_engine.Prelude.{
  ℕ, suc, ◌+◌, none, some, List, [], ◌∷◌, ◌++◌, ◌≡◌, refl, ap, ◌∙◌, arith, All, length,
  Option-cases, inl, inr,
}
use epistemic_engine.Protocol.Types.{Event, DecisionRequest}
use epistemic_engine.Protocol.Validation.{
  Invalid, validate_event, validate_events, validate_decision_request,
}

-- The first event that is refused, `index` places behind those before it.
pub record FirstInvalid (start : ℕ) (es : List Event) (index : ℕ) (x : Invalid) : Type 0 where
  pub before : List Event
  pub event : Event
  pub behind : List Event
  pub split : es ≡ before ++ event ∷ behind
  pub place : index ≡ start + length before
  pub accepted : All (λ e. validate_event e ≡ none) before
  pub refused : validate_event event ≡ some x

validate_events-none :
    (start : ℕ) (es : List Event)
    → validate_events start es ≡ none
    → All (λ e. validate_event e ≡ none) es
unfolding validate_events
validate_events-none start [] h = tt
validate_events-none start (e ∷ es) h = elim (Option-cases (validate_event e)) [
  | inl valid ↦ (valid, validate_events-none (suc start) es (rw (validate_events, valid) at h))
  | inr (x, invalid) ↦ cc (rw (validate_events, invalid) at h)
]

validate_events-FirstInvalid :
    (start : ℕ) (es : List Event) (index : ℕ) (x : Invalid)
    → validate_events start es ≡ some (Invalid.at_event index x)
    → FirstInvalid start es index x
unfolding validate_events
validate_events-FirstInvalid start [] index x h = cc
validate_events-FirstInvalid start (e ∷ es) index x h = elim (Option-cases (validate_event e)) [
  | inl valid ↦
      let later =
        validate_events-FirstInvalid (suc start) es index x (rw (validate_events, valid) at h) in
      record {
        before = e ∷ later.before;
        event = later.event;
        behind = later.behind;
        split = ap (λ l. e ∷ l) later.split;
        place = omega (arith, later.place);
        accepted = (valid, later.accepted);
        refused = later.refused;
      }
  | inr (y, invalid) ↦
      let first : some (Invalid.at_event start y) ≡ some (Invalid.at_event index x) =
        rw (validate_events, invalid) at h in
      let number : start ≡ index = cc first in
      let error : y ≡ x = cc first in
      record {
        before = [];
        event = e;
        behind = es;
        split = refl;
        place = omega (arith, number);
        accepted = tt;
        refused = invalid ∙ ap some error;
      }
]

-- An error about the event of an index says that the request's events before it are all valid and
-- that the event there, the first one that is not, is refused with the error inside.
pub validate_decision_request-FirstInvalid :
    (r : DecisionRequest) (index : ℕ) (x : Invalid)
    → validate_decision_request r ≡ some (Invalid.at_event index x)
    → FirstInvalid 0 r.events index x
unfolding validate_decision_request
validate_decision_request-FirstInvalid r index x h =
    validate_events-FirstInvalid 0 r.events index x (ground arith)

-- A decision request that is accepted holds valid events only.
pub validate_decision_request-none :
    (r : DecisionRequest)
    → validate_decision_request r ≡ none
    → All (λ e. validate_event e ≡ none) r.events
unfolding validate_decision_request
validate_decision_request-none r h = validate_events-none 0 r.events (ground arith)
