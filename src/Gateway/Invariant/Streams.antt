-- ===== src/Gateway/Invariant/Streams.antt =====
-- The streams of the gateway (apps/control-plane/internal/httpapi/protocol.go) after any requests.
use epistemic_engine.Prelude.{List}
use epistemic_engine.Service.System.{System}
use epistemic_engine.Gateway.State.{GatewayEnv, add, undo}
use epistemic_engine.Gateway.Evaluate.{note_run, note_result}
use epistemic_engine.Gateway.Invariant.Accept.{accept-stays}
use epistemic_engine.Gateway.Invariant.Capacity.{AllFit, broadcast-AllFit}
use epistemic_engine.Gateway.Invariant.Handlers.{Survives, evaluate_new-Stays}
use epistemic_engine.Gateway.Invariant.Indices.{new_gateway}
use epistemic_engine.Gateway.Invariant.Requests.{
  Request, OnProtocol, OnProtocol-call, OnProtocol-Survives, serve, serve-stays,
}

AllFit-Survives : (env : GatewayEnv) → Survives env (OnProtocol AllFit)
unfolding note_run add undo
AllFit-Survives env =
    OnProtocol-Survives env AllFit
      (λ e g h.
        (accept-stays env {P = OnProtocol AllFit} (λ e g h. record { held = h.held })
          (λ e g h. record { held = h.held })
          (λ e g h. record { held = broadcast-AllFit e g.protocol h.held })
          (λ id input g h. record { held = h.held }) e g (record { held = h })).held)
      (λ id run g h. h)

-- After any requests to a new gateway, whatever is streamed to readers that do not keep up, no channel
-- of a stream holds more than 32 events.
pub serve-AllFit :
    (env : GatewayEnv) (rs : List Request) (s : System)
    → AllFit (serve env rs (new_gateway s)).protocol
unfolding note_result
serve-AllFit env rs s =
    let kept = AllFit-Survives env in
    (serve-stays env kept
      (λ r decision_id g new.
        (evaluate_new-Stays env kept decision_id r (λ c. Unit {0})
            (λ f id. OnProtocol-call AllFit f _) (λ f id g c x e. tt)
            (λ context internal graph c q made g h. record { held = h.held })).at
          g)
      (λ f quiet g h. record { held = quiet.fit g.protocol h.held }) rs (new_gateway s)
      (record { held = tt })).held
