-- ===== src/Protocol/Gate.antt =====
-- What the evaluation of sdk/go/providers/local/local.go decides.
use mathlib.Core.List.{append-nil, append_assoc}
use epistemic_engine.Prelude.{
  Bool, false, not, none, List, [], ◌∷◌, ◌++◌, ◌&&◌, ◌||◌, ◌≡◌, refl, ◌∙◌, arith, any_of, select,
  map, Bool-cases, inl, inr, if◌then◌else◌,
}
use epistemic_engine.Go.Map.{Map}
use epistemic_engine.Go.Numbers.{Time}
use epistemic_engine.Go.Text.{or_default}
use epistemic_engine.Protocol.Types.{Event, DecisionRequest, DecisionResult, protocol_version}
use epistemic_engine.Protocol.Local.{
  events_for, blocks, pends, contradicted, verification_required, weigh, hold_pending,
  hold_unapproved, initial_result, decide,
}

abbrev pub holds : Event → Bool
holds e = not (blocks e) && pends e

-- The result after the blocking events of a list.
abbrev pub blocked_by : List Event → DecisionResult → DecisionResult
blocked_by es result = record result {
  status = if any_of blocks es then "block" else result.status;
  action_allowed = not (any_of blocks es) && result.action_allowed;
  reasons = result.reasons ++ map contradicted (select blocks es);
}

pub weigh_lem :
    (es : List Event) (result : DecisionResult) (pending : Bool)
    → weigh es result pending ≡ (blocked_by es result, pending || any_of holds es)
unfolding weigh
weigh_lem [] result pending = ground (arith, append-nil result.reasons)
weigh_lem (e ∷ es) result pending = elim (Bool-cases (blocks e)) [
  | inl t ↦ rw t (
      weigh_lem es _ _
      ∙ ground (
        arith,
        append_assoc result.reasons (contradicted e ∷ []) (map contradicted (select blocks es)),
      ))
  | inr f ↦ rw f (weigh_lem es _ _ ∙ ground arith)
]

-- The decision as the event stream and the approval determine it, field by field.
abbrev pub spec : Time → DecisionRequest → Map Event → DecisionResult
spec now r events =
    let es = events_for r events in
    let blocked = any_of blocks es in
    let held = any_of holds es in
    record {
      spec_version = protocol_version;
      decision_id = or_default r.decision_id "local-decision";
      status = if blocked then "block" else if held then "indeterminate" else "allow";
      action_allowed = not blocked && not held && r.approval.approved;
      reasons =
          if blocked
          then map contradicted (select blocks es)
          else if held
          then verification_required ∷ []
          else [];
      conditions =
          if blocked || held || r.approval.approved
          then []
          else "Human approval is required before consequential action." ∷ [];
      evaluated_at = now;
      context = r.context;
      certificate = none;
    }

select-none : (es : List Event) → any_of blocks es ≡ false → select blocks es ≡ []
select-none [] h = refl
select-none (e ∷ es) h = elim (Bool-cases (blocks e)) [
  | inl t ↦ ground arith
  | inr f ↦ rw f (select-none es (ground arith))
]

-- The result of the local provider is the one that the collected events and the approval determine:
-- blocked with a reason for every blocking event in order, else indeterminate for a requested
-- verification, a declared claim or a declared unknown, else allowed, and then with a condition
-- where no human approved. No other event changes the result: neither "contradiction.resolved" or
-- "claim.superseded" for what blocks, nor "verification.completed", "claim.supported" or
-- "unknown.resolved" for what was requested or declared.
pub decide-eq-spec :
    (now : Time) (r : DecisionRequest) (events : Map Event)
    → decide now r events ≡ spec now r events
unfolding decide hold_pending hold_unapproved
decide-eq-spec now r events =
    let es = events_for r events in
    rw (weigh_lem es (initial_result now r) false) (elim (Bool-cases (any_of blocks es)) [
      | inl b ↦ rw b refl
      | inr b ↦
          rw (b, select-none es b)
            (elim (Bool-cases (any_of holds es)) [
              | inl h ↦ rw h refl
              | inr h ↦
                  rw h (elim (Bool-cases r.approval.approved) [
                    | inl a ↦ rw a refl
                    | inr a ↦ rw a refl
                  ])
            ])
    ])
