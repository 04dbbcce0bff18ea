-- ===== src/Gateway/Examples.antt =====
-- Runs of the gateway of apps/control-plane/internal/httpapi/protocol.go in a small world outside it,
-- and the theorems about it at concrete requests.
use mathlib.Core.List.{Perm}
use epistemic_engine.Prelude.{
  any_of, ℕ, zero, suc, String, true, some, List, [], ◌∷◌, ◌≡◌, ◌≢◌, refl,
}
use epistemic_engine.Go.Effect as Effect
use epistemic_engine.Go.Map.{lookup}
use epistemic_engine.Go.Numbers.{pos}
use epistemic_engine.Go.Text.{concat, is_blank, trim_space, trim_left, trim_right, is_space}
use epistemic_engine.Go.Split.{lacks, join}
use epistemic_engine.Domain.Claim.{Analysis}
use epistemic_engine.Protocol.Types.{Context, Event, DecisionRequest, DecisionResult}
use epistemic_engine.Protocol.Provider.{zero_context, noop_result}
use epistemic_engine.Protocol.Validation.{
  validate_event, is_event_type, validate_events, validate_decision_request, is_mode,
}
use epistemic_engine.Service.System.{Env}
use epistemic_engine.Service.Invariant.Reach.{new_system}
use epistemic_engine.Gateway.Context.{merge_context_header, context_header}
use epistemic_engine.Gateway.Context.RoundTrip.{AllClean, merge_context_header-context_header}
use epistemic_engine.Gateway.State.{ProtocolState, new_protocol_state, Gateway, GatewayEnv}
use epistemic_engine.Gateway.Slots.{lookup_slot}
use epistemic_engine.Gateway.Accept.{
  created, duplicate, parent_error, sequence_error, order_error, forward, store, accept_new,
  accept_valid, accept,
}
use epistemic_engine.Gateway.Reply.{ok}
use epistemic_engine.Gateway.Evaluate.{evaluate}
use epistemic_engine.Gateway.Queries.{InOrder, events, stored_events, events_sorted}
use epistemic_engine.Gateway.Consistency.{new_protocol_state-IsConsistent}
use epistemic_engine.Gateway.Rollback.{Agrees}
use epistemic_engine.Gateway.Safety.{accept-unchanged, accept-accept}
use epistemic_engine.Gateway.Invariant.Requests.{
  Request, emit_event, emit_batch, evaluate_decision, open_stream, serve,
}
use epistemic_engine.Gateway.Invariant.Indices.{IsExclusive, new_gateway, serve-IsExclusive}
use epistemic_engine.Gateway.Invariant.Capacity.{AllFit}
use epistemic_engine.Gateway.Invariant.Streams.{serve-AllFit}
use epistemic_engine.Gateway.Invariant.Results.{evaluate-again}
use epistemic_engine.Gateway.Invariant.Approval.{approves, AllBacked}
use epistemic_engine.Gateway.Invariant.Backing.{serve-AllBacked}

abbrev digits : ℕ → String
digits zero = "0"
digits (suc n) = concat "1" (digits n)

abbrev no_analysis : Analysis
no_analysis = record { evidence = []; claims = []; relations = []; assumptions = []; unknowns = [] }

abbrev service : Env
service = record {
  now = λ n. 1;
  random_hex = digits;
  random_token = digits;
  sha256_hex = λ bytes. "digest";
  marshal = λ p. some (123 ∷ 125 ∷ []);
  marshal_certificate = λ c. some (123 ∷ 125 ∷ []);
  analyze = λ run decision. Effect.ok no_analysis;
  execute = λ v. Effect.ok (record { outcome = "passed"; artifact = 123 ∷ 125 ∷ [] });
}

abbrev world : GatewayEnv
world = record {
  service = service;
  event_hash = λ e. e.id;
  certificate_hash = λ c. some "hash";
  marshal_result = λ r. some (123 ∷ 125 ∷ []);
  marshal_generated = λ g. 123 ∷ 125 ∷ [];
  now = λ n. 1;
  nanos = digits;
  quote = λ s. concat "'" (concat s "'");
  decimal = digits;
}

abbrev event : String → ℕ → Event
event id number = record {
  spec_version = "0.1";
  id = id;
  type = "claim.supported";
  source = record { name = "ci"; version = ""; instance = "" };
  subject = record { type = "service"; id = "s" };
  time = 1;
  context = record zero_context { decision_id = "d" };
  ordering = record { sequence = pos number; partition = "" };
  idempotency_key = "";
  payload = 123 ∷ 125 ∷ [];
  extensions = [];
  unknown = [];
}

abbrev request : DecisionRequest
request = record {
  spec_version = "0.1";
  decision_id = "d";
  recommendation = "Deploy the change.";
  action = record {
    type = "deploy";
    subject = record { type = "service"; id = "s" };
    risk_level = "";
  };
  context = zero_context;
  mode = "enforce";
  requirements = [];
  events = event "2" 2 ∷ [];
  approval = record { approved = true; actor = "reviewer"; time = "" };
  metadata = [];
}

abbrev requests : List Request
requests =
    emit_event "" (some (event "1" 1))
    ∷ open_stream
    ∷ evaluate_decision "run=r" (some request)
    ∷ emit_batch "" (some (event "1" 1 ∷ event "3" 2 ∷ []))
    ∷ []

abbrev empty : Gateway
empty = new_gateway new_system

serve-IsExclusive_example : IsExclusive (serve world requests empty).protocol
serve-IsExclusive_example = serve-IsExclusive world requests new_system

serve-AllBacked_example :
    AllBacked world (any_of approves requests) (serve world requests empty).protocol
serve-AllBacked_example = serve-AllBacked world requests

abbrev earlier_result : DecisionResult
earlier_result = noop_result 1 request

abbrev decided : Gateway
decided = record empty {
  protocol = record new_protocol_state { results = ("d", earlier_result) ∷ [] };
}

evaluate-again_example :
    evaluate world "run=r" (some request) (serve world requests decided)
    ≡ (ok earlier_result, serve world requests decided)
unfolding lookup validate_decision_request validate_events validate_event is_blank trim_space
    trim_left trim_right is_space is_event_type is_mode
evaluate-again_example =
    evaluate-again world requests decided earlier_result "run=r" request refl refl refl

new_event : (accept world (event "1" 1) empty).0 ≡ created
unfolding accept accept_valid accept_new order_error parent_error sequence_error store forward
    lookup lookup_slot validate_event is_blank trim_space trim_left trim_right is_space
    is_event_type
new_event = refl

accept-accept_example :
    accept world (event "1" 1) (accept world (event "1" 1) empty).1
    ≡ (duplicate, (accept world (event "1" 1) empty).1)
accept-accept_example =
    accept-accept world (event "1" 1) empty new_protocol_state-IsConsistent new_event

abbrev orphan : Event
orphan = record (event "2" 1) { context = record zero_context { parent_id = "1" } }

orphan_refused : (accept world orphan empty).0 ≢ created
unfolding accept accept_valid accept_new order_error parent_error lookup validate_event is_blank
    trim_space trim_left trim_right is_space is_event_type
orphan_refused = λ h. cc

accept-unchanged_example : Agrees (accept world orphan empty).1.protocol new_protocol_state
accept-unchanged_example =
    accept-unchanged world orphan empty new_protocol_state-IsConsistent orphan_refused

abbrev full_context : Context
full_context = record { decision_id = "d"; run_id = ""; correlation = "c=1"; parent_id = "p 1" }

full_AllClean : AllClean full_context
unfolding lacks trim_right is_space
full_AllClean = record {
  decision = record { whole = refl; tight = refl };
  run = record { whole = refl; tight = refl };
  correlation = record { whole = refl; tight = refl };
  parent = record { whole = refl; tight = refl };
}

header_written : context_header full_context ≡ "decision=d;correlation=c=1;parent=p 1"
unfolding context_header join
header_written = refl

merge_context_header-context_header_example :
    merge_context_header zero_context (context_header full_context) ≡ full_context
merge_context_header-context_header_example =
    merge_context_header-context_header full_context full_AllClean

abbrev two_events : ProtocolState
two_events = record new_protocol_state {
  events = ("1", event "1" 2) ∷ ("2", event "2" 1) ∷ [];
  events_by_decision = ("d", "1" ∷ "2" ∷ []) ∷ [];
}

events_sorted_example :
    InOrder (events "d" two_events) × Perm (events "d" two_events) (stored_events "d" two_events)
events_sorted_example = events_sorted "d" two_events

serve-AllFit_example : AllFit (serve world requests empty).protocol
serve-AllFit_example = serve-AllFit world requests new_system
