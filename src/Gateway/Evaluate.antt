-- ===== src/Gateway/Evaluate.antt =====
-- `protocolEvaluate` and `emitGeneratedProtocolEvent` of apps/control-plane/internal/httpapi/protocol.go. A call of the service is
-- one step, and so is a run of writes under the lock. The headers of the answer are left out here.
use epistemic_engine.Prelude.{
  ℕ, suc, String, Bool, Option, none, some, List, [], ◌∷◌, ◌==◌, if◌then◌else◌,
}
use epistemic_engine.Go.Map.{lookup, insert, or_zero}
use epistemic_engine.Go.Numbers.{pos}
use epistemic_engine.Go.Text.{concat, or_default}
use epistemic_engine.Domain.Run.{Run}
use epistemic_engine.Domain.Claim.{Graph}
use epistemic_engine.Domain.Certificate as Engine
use epistemic_engine.Protocol.Types.{
  protocol_version, Context, Event, DecisionRequest, DecisionResult, Certificate,
}
use epistemic_engine.Protocol.Validation.{validate_decision_request}
use epistemic_engine.Service.Runs.{CreateRunInput, create_run, add_event}
use epistemic_engine.Service.Analysis.{analyze}
use epistemic_engine.Service.Evaluation as Evaluation
use epistemic_engine.Gateway.Failures.{Failure, failure, classify}
use epistemic_engine.Gateway.State.{Gateway, GatewayEnv, Generated, listed}
use epistemic_engine.Gateway.Accept.{input_of, accept}
use epistemic_engine.Gateway.Context.{merge_context_header}
use epistemic_engine.Gateway.Portable.{normalized_risk, portable_result, portable_certificate}
use epistemic_engine.Gateway.Reply.{Step, stop, give, call, need, ◌>>=◌, ◌>>◌}
use epistemic_engine.Gateway.Requests.{accept_step}

abbrev pub evaluation_failed : Failure
evaluation_failed = failure 500 "evaluation_failed"

-- What a map of events returns for a key that is missing.
abbrev pub zero_event : Event
zero_event = record {
  spec_version = "";
  id = "";
  type = "";
  source = record { name = ""; version = ""; instance = "" };
  subject = record { type = ""; id = "" };
  time = 0;
  context = record { decision_id = ""; run_id = ""; correlation = ""; parent_id = "" };
  ordering = record { sequence = pos 0; partition = "" };
  idempotency_key = "";
  payload = [];
  extensions = [];
  unknown = [];
}

abbrev pub run_input : DecisionRequest → String → CreateRunInput
run_input r decision_id = record {
  account_id = "";
  project_id = "";
  ai_system_id = "";
  external_trace_id =
      if r.context.run_id == ""
      then decision_id
      else concat (concat r.context.run_id ":") decision_id;
  title = concat (concat r.action.subject.type " ") r.action.subject.id;
  goal = "Evaluate a portable Epistemic Protocol decision request.";
  source = "epistemic-protocol/v0.1";
  recommendation = r.recommendation;
  action_type = r.action.type;
  subject = r.action.subject.id;
  risk_level = normalized_risk r.action.risk_level;
  raw = [];
}

-- `request.Context.RunID = run.ID` where it is not set.
abbrev pub with_run : String → Context → Context
with_run run_id c = record c { run_id = or_default c.run_id run_id }

abbrev pub of_decision : String → String → Event → Event
of_decision decision_id run_id e = record e {
  context = with_run run_id (record e.context { decision_id = decision_id });
}

-- The writes of `runs` and `engineDecisions`.
unfoldable pub note_run : String → Run → Gateway → Gateway
note_run decision_id run g = record g {
  protocol = record g.protocol {
    runs = insert decision_id run.id g.protocol.runs;
    engine_decisions = insert decision_id run.decision_id g.protocol.engine_decisions;
  };
}

-- The writes of `results` and `certificates`.
unfoldable pub note_result : String → DecisionResult → Certificate → Gateway → Gateway
note_result decision_id result certificate g = record g {
  protocol = record g.protocol {
    results = insert decision_id result g.protocol.results;
    certificates = insert decision_id certificate g.protocol.certificates;
  };
}

abbrev pub issued : DecisionResult → Certificate → DecisionResult
issued result certificate = record result { certificate = some certificate }

unfoldable pub write : (Gateway → Gateway) → Step (Unit {0})
write f g = give tt (f g)

-- `time.Now()`
unfoldable pub tick : Step ℕ
tick g = give g.ticks (record g { ticks = suc g.ticks })

abbrev pub in_decision : String → DecisionRequest → DecisionRequest
in_decision decision_id r = record r {
  decision_id = decision_id;
  context = record r.context { decision_id = decision_id };
}

module _ (env : GatewayEnv) where
  -- The loop over `bufferedIDs`.
  unfoldable pub forward_buffered : String → List String → Step (Unit {0})
  forward_buffered run_id [] = give tt
  forward_buffered run_id (id ∷ ids) = do
    e ← λ g. give (or_zero zero_event (lookup id g.protocol.events)) g
    call (failure 409 "conflict") (add_event env.service run_id (input_of e))
    forward_buffered run_id ids

  -- The loop over `request.Events`.
  unfoldable pub take_request_events : String → String → List Event → Step (Unit {0})
  unfolding accept_step
  take_request_events decision_id run_id [] = give tt
  take_request_events decision_id run_id (e ∷ es) = do
    accept_step env (of_decision decision_id run_id e)
    take_request_events decision_id run_id es

  -- `strings.ReplaceAll(eventType, ".", "-")` is the second argument.
  abbrev pub generated_event :
      String → String → String → String → String → String → Generated → ℕ → ℕ → Event
  generated_event type dashed decision_id run_id subject_type subject_id data_ first second =
      record {
        spec_version = protocol_version;
        id = concat (concat dashed "-") (env.nanos first);
        type = type;
        source = record { name = "epistemic-engine"; version = "0.1"; instance = "" };
        subject = record { type = subject_type; id = subject_id };
        time = env.now second;
        context = record {
          decision_id = decision_id;
          run_id = run_id;
          correlation = "";
          parent_id = "";
        };
        ordering = record { sequence = pos 0; partition = "" };
        idempotency_key = "";
        payload = env.marshal_generated data_;
        extensions = [];
        unknown = [];
      }

  -- `_, _ = h.acceptProtocolEvent(r, event)`
  unfoldable pub drop_answer : Event → Step (Unit {0})
  drop_answer e g = give tt (accept env e g).1

  -- `emitGeneratedProtocolEvent`
  unfoldable pub emit_generated :
      String → String → String → String → String → String → Generated → Step (Unit {0})
  unfolding tick drop_answer
  emit_generated type dashed decision_id run_id subject_type subject_id data_ = do
    first ← tick
    second ← tick
    drop_answer
        (generated_event type dashed decision_id run_id subject_type subject_id data_ first second)

  abbrev pub emit_if : Bool → Step (Unit {0}) → Step (Unit {0})
  emit_if test step = if test then step else give tt

  -- The events that announce a result.
  unfoldable pub announce :
      DecisionRequest → String → DecisionResult → Certificate → Step (Unit {0})
  unfolding emit_generated
  announce r run_id result certificate = do
    let id = result.decision_id
    emit_generated "decision.evaluated" "decision-evaluated" id run_id "decision" id
        (Generated.result result)
    emit_if (result.status == "block") (
        emit_generated "decision.blocked" "decision-blocked" id run_id "decision" id
          (Generated.reasons result.reasons))
    emit_if result.action_allowed (
        emit_generated "decision.approved" "decision-approved" id run_id "decision" id
          (Generated.approval r.approval))
    emit_generated "proof.issued" "proof-issued" id run_id "proof" certificate.id
        (Generated.certificate certificate)

  -- Behind `h.service.Evaluate`.
  unfoldable pub conclude :
      DecisionRequest → String → String → Engine.Certificate → Graph → Step DecisionResult
  unfolding announce note_result portable_result portable_certificate write
  conclude r decision_id run_id internal graph = do
    let result = portable_result decision_id (with_run run_id r.context) internal graph
    certificate ← need evaluation_failed (portable_certificate env result internal)
    write (note_result decision_id (issued result certificate) certificate)
    announce r run_id (issued result certificate) certificate
    give (issued result certificate)

  -- For a decision without a result. `r` has the decision's identifier in its context.
  unfoldable pub evaluate_new : DecisionRequest → String → Step DecisionResult
  unfolding forward_buffered take_request_events conclude note_run write
  evaluate_new r decision_id = do
    run ← call evaluation_failed (create_run env.service (run_input r decision_id))
    write (note_run decision_id run)
    ids ← λ g. give (listed decision_id g.protocol) g
    forward_buffered run.id ids
    take_request_events decision_id run.id r.events
    graph ← call evaluation_failed (analyze env.service run.id)
    internal ←
        call evaluation_failed
          (Evaluation.evaluate env.service graph.decision.id r.approval.approved)
    conclude r decision_id run.id internal graph

  unfoldable pub evaluate_once : DecisionRequest → String → Step DecisionResult
  unfolding evaluate_new
  evaluate_once r decision_id g = elim (lookup decision_id g.protocol.results) [
    | some existing ↦ give existing g
    | none ↦ evaluate_new (in_decision decision_id r) decision_id g
  ]

  -- `fmt.Sprintf("decision-%x", time.Now().UnixNano())` where the request names no decision.
  unfoldable pub decision_name : DecisionRequest → Step String
  unfolding tick
  decision_name r =
      if r.decision_id == ""
      then (tick >>= λ at. give (concat "decision-" (env.nanos at)))
      else give r.decision_id

  unfoldable pub evaluate_request : DecisionRequest → Step DecisionResult
  unfolding evaluate_once decision_name
  evaluate_request r g = elim (validate_decision_request r) [
    | some x ↦ stop (classify env.quote env.decimal x) g
    | none ↦ (decision_name r >>= evaluate_once r) g
  ]

  -- `protocolEvaluate`, for a body that decodes or not, and the header `Epistemic-Context`.
  unfoldable pub evaluate : String → Option DecisionRequest → Step DecisionResult
  unfolding evaluate_request
  evaluate header none = stop (failure 400 "invalid_message")
  evaluate header (some r) =
      evaluate_request (record r { context = merge_context_header r.context header })
