-- ===== src/Gateway/Invariant/Requests.antt =====
-- Sequences of requests to the gateway of apps/control-plane/internal/httpapi/protocol.go, one after
-- the other. The queries, which change nothing, are left out.
use epistemic_engine.Prelude.{ℕ, String, Bool, Option, none, some, List, [], ◌∷◌, ◌≡◌, refl, All}
use epistemic_engine.Go.Effect.{Exec}
use epistemic_engine.Go.Map.{lookup}
use epistemic_engine.Domain.Run.{Run}
use epistemic_engine.Protocol.Types.{Event, DecisionRequest}
use epistemic_engine.Service.System.{System}
use epistemic_engine.Gateway.Failures.{Failure}
use epistemic_engine.Gateway.State.{
  ProtocolState, Gateway, GatewayEnv, subscribe, unsubscribe, receive,
}
use epistemic_engine.Gateway.Accept.{accept}
use epistemic_engine.Gateway.Reply.{call}
use epistemic_engine.Gateway.Requests.{emit, batch}
use epistemic_engine.Gateway.Evaluate.{note_run, evaluate_new, evaluate}
use epistemic_engine.Gateway.Invariant.Accept.{on_protocol}
use epistemic_engine.Gateway.Invariant.Capacity.{
  AllFit, subscribe-AllFit, unsubscribe-AllFit, receive-AllFit,
}
use epistemic_engine.Gateway.Invariant.Steps.{Stays}
use epistemic_engine.Gateway.Invariant.Handlers.{
  Survives, AdmittedBody, emit-Stays, batch-Stays, evaluate-Stays,
}

pub data Request : Type 0 where
  emit_event : String → Option Event → Request
  emit_batch : String → Option (List Event) → Request
  evaluate_decision : String → Option DecisionRequest → Request
  open_stream : Request
  close_stream next_of_stream : ℕ → Request

module _ (env : GatewayEnv) where
  unfoldable pub handle : Request → Gateway → Gateway
  unfolding subscribe unsubscribe receive
  handle (emit_event header body) g = (emit env header body g).1
  handle (emit_batch header body) g = (batch env header body g).1
  handle (evaluate_decision header body) g = (evaluate env header body g).1
  handle open_stream g = on_protocol (λ p. (subscribe p).1) g
  handle (close_stream id) g = on_protocol (unsubscribe id) g
  handle (next_of_stream id) g = on_protocol (receive id) g

  unfoldable pub serve : List Request → Gateway → Gateway
  unfolding handle
  serve [] g = g
  serve (r ∷ rs) g = serve rs (handle r g)

-- A property of the indices alone.
pub record OnProtocol (Q : ProtocolState → Type 0) (g : Gateway) : Type 0 where
  pub held : Q g.protocol

-- A property of the service behind the gateway.
pub record OnSystem (Q : System → Type 0) (g : Gateway) : Type 0 where
  pub held : Q g.system

pub OnProtocol-call :
    {A : Type 0} (Q : ProtocolState → Type 0) (f : Failure) (operation : Exec System A)
    → Stays (OnProtocol Q) (call f operation)
unfolding call
OnProtocol-call Q f operation = record { at = λ g h. record { held = h.held } }

pub OnProtocol-Survives :
    (env : GatewayEnv) (Q : ProtocolState → Type 0)
    → ((e : Event) (g : Gateway) → Q g.protocol → Q (accept env e g).1.protocol)
    → ((id : String) (run : Run) (g : Gateway) → Q g.protocol → Q (note_run id run g).protocol)
    → Survives env (OnProtocol Q)
OnProtocol-Survives env Q accepted noted = record {
  accepted = λ e g h. record { held = accepted e g h.held };
  run_created = λ f input. OnProtocol-call Q f _;
  event_added = λ f id input. OnProtocol-call Q f _;
  analyzed = λ f id. OnProtocol-call Q f _;
  run_noted = λ id run g h. record { held = noted id run g h.held };
  ticked = λ g h. record { held = h.held };
}

-- A change of the state that leaves everything but the subscribers, and those within their capacity.
pub record IsQuiet (f : ProtocolState → ProtocolState) : Type 0 where
  pub same :
      (p : ProtocolState)
      → f p ≡ record p { subscribers = (f p).subscribers; next_subscriber = (f p).next_subscriber }
  pub fit : (p : ProtocolState) → AllFit p → AllFit (f p)

subscribe-IsQuiet : IsQuiet (λ p. (subscribe p).1)
unfolding subscribe
subscribe-IsQuiet = record { same = λ p. refl; fit = subscribe-AllFit }

unsubscribe-IsQuiet : (id : ℕ) → IsQuiet (unsubscribe id)
unfolding unsubscribe
unsubscribe-IsQuiet id = record { same = λ p. refl; fit = unsubscribe-AllFit id }

receive-IsQuiet : (id : ℕ) → IsQuiet (receive id)
unfolding receive
receive-IsQuiet id = record { same = λ p. refl; fit = receive-AllFit id }

-- The approval of an evaluation is admitted.
abbrev pub AdmittedRequest : (Bool → Type 0) → Request → Type 0
AdmittedRequest Admitted (evaluate_decision header body) = AdmittedBody Admitted body
AdmittedRequest Admitted _ = Unit

module _ (env : GatewayEnv) {P : Gateway → Type 0} (kept : Survives env P)
    (Admitted : Bool → Type 0)
    (first : (r : DecisionRequest)
      → Admitted r.approval.approved
      → (decision_id : String) (g : Gateway) → lookup decision_id g.protocol.results ≡ none
      → P g
      → P (evaluate_new env r decision_id g).1)
    (streamed : (f : ProtocolState → ProtocolState)
      → IsQuiet f
      → (g : Gateway) → P g
      → P (on_protocol f g)) where
  handle-stays : (r : Request) (g : Gateway) → AdmittedRequest Admitted r → P g → P (handle env r g)
  unfolding handle
  handle-stays (emit_event header body) g fits p = (emit-Stays env kept header body).at g p
  handle-stays (emit_batch header body) g fits p = (batch-Stays env kept header body).at g p
  handle-stays (evaluate_decision header body) g fits p =
      (evaluate-Stays env kept Admitted first header body fits).at g p
  handle-stays open_stream g fits p = streamed _ subscribe-IsQuiet g p
  handle-stays (close_stream id) g fits p = streamed _ (unsubscribe-IsQuiet id) g p
  handle-stays (next_of_stream id) g fits p = streamed _ (receive-IsQuiet id) g p

  pub serve_admitted-stays :
      (rs : List Request) (g : Gateway)
      → All (AdmittedRequest Admitted) rs
      → P g
      → P (serve env rs g)
  unfolding serve
  serve_admitted-stays [] g fits p = p
  serve_admitted-stays (r ∷ rs) g fits p =
      serve_admitted-stays rs (handle env r g) fits.1 (handle-stays r g fits.0 p)

unconditional_request : (r : Request) → AdmittedRequest (λ approved. Unit) r
unconditional_request (emit_event header body) = tt
unconditional_request (emit_batch header body) = tt
unconditional_request (evaluate_decision header none) = tt
unconditional_request (evaluate_decision header (some r)) = tt
unconditional_request open_stream = tt
unconditional_request (close_stream id) = tt
unconditional_request (next_of_stream id) = tt

unconditional_requests : (rs : List Request) → All (AdmittedRequest (λ approved. Unit)) rs
unconditional_requests [] = tt
unconditional_requests (r ∷ rs) = (unconditional_request r, unconditional_requests rs)

module _ (env : GatewayEnv) {P : Gateway → Type 0} (kept : Survives env P)
    (first : (r : DecisionRequest) (decision_id : String) (g : Gateway)
      → lookup decision_id g.protocol.results ≡ none
      → P g
      → P (evaluate_new env r decision_id g).1)
    (streamed : (f : ProtocolState → ProtocolState)
      → IsQuiet f
      → (g : Gateway) → P g
      → P (on_protocol f g)) where
  -- The same for all requests.
  pub serve-stays : (rs : List Request) (g : Gateway) → P g → P (serve env rs g)
  serve-stays rs g p =
      serve_admitted-stays env kept (λ approved. Unit) (λ r fits. first r) streamed rs g
        (unconditional_requests rs) p
