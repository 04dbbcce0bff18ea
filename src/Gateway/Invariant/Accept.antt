-- ===== src/Gateway/Invariant/Accept.antt =====
-- `acceptProtocolEvent` of apps/control-plane/internal/httpapi/protocol.go keeps what its writes and its
-- call of the service keep.
use epistemic_engine.Prelude.{String, Bool-cases, Option-cases, inl, inr, ◌==◌}
use epistemic_engine.Go.Effect.{Result, ok, err}
use epistemic_engine.Go.Map.{lookup}
use epistemic_engine.Domain.Run as Run
use epistemic_engine.Protocol.Types.{Event}
use epistemic_engine.Protocol.Validation.{validate_event}
use epistemic_engine.Service.System.{System}
use epistemic_engine.Service.Runs.{AddEventInput, add_event}
use epistemic_engine.Gateway.State.{
  ProtocolState, Gateway, GatewayEnv, key_of, add, undo, broadcast,
}
use epistemic_engine.Gateway.Accept.{
  order_error, input_of, settle, forward, store, accept_new, accept_valid, accept,
}

abbrev pub on_protocol : (ProtocolState → ProtocolState) → Gateway → Gateway
on_protocol f g = record g { protocol = f g.protocol }

module _ (env : GatewayEnv) {P : Gateway → Type 0}
    (added : (e : Event) (g : Gateway) → P g → P (on_protocol (add e) g))
    (undone : (e : Event) (g : Gateway) → P g → P (on_protocol (undo e) g))
    (sent : (e : Event) (g : Gateway) → P g → P (on_protocol (broadcast e) g))
    (called : (id : String) (input : AddEventInput) (g : Gateway)
      → P g
      → P (record g { system = (add_event env.service id input g.system).1 })) where
  settle-stays :
      (e : Event) (r : Result Run.Event) (s : System) (g : Gateway)
      → P (record g { system = s })
      → P (settle env e r s g).1
  unfolding settle
  settle-stays e (ok stored) s g p = sent e (record g { system = s }) p
  settle-stays e (err x) s g p = undone e (record g { system = s }) p

  forward-stays : (e : Event) (run_id : String) (g : Gateway) → P g → P (forward env e run_id g).1
  unfolding forward
  forward-stays e run_id g p = elim (Bool-cases (run_id == "")) [
    | inl t ↦ rw (forward, t) (sent e g p)
    | inr f ↦ rw (forward, f) (settle-stays e _ _ g (called run_id (input_of e) g p))
  ]

  accept_new-stays : (e : Event) (g : Gateway) → P g → P (accept_new env e g).1
  unfolding accept_new store
  accept_new-stays e g p = elim (Option-cases (order_error e g.protocol)) [
    | inr (x, bad) ↦ rw (accept_new, bad) p
    | inl good ↦ rw (accept_new, good) (forward-stays e _ (on_protocol (add e) g) (added e g p))
  ]

  pub accept-stays : (e : Event) (g : Gateway) → P g → P (accept env e g).1
  unfolding accept accept_valid
  accept-stays e g p = elim (Option-cases (validate_event e)) [
    | inr (x, bad) ↦ rw (accept, bad) p
    | inl valid ↦
        rw (accept, valid)
          (elim (Option-cases (lookup e.id g.protocol.events)) [
            | inr (x, known) ↦ rw (accept_valid, known) p
            | inl fresh ↦
                rw (accept_valid, fresh)
                  (elim (Option-cases (lookup (key_of e) g.protocol.idempotency)) [
                    | inr (id, used) ↦ rw (accept_valid, used) p
                    | inl unused ↦ rw (accept_valid, unused) (accept_new-stays e g p)
                  ])
          ])
  ]
