-- ===== src/Gateway/Invariant/Indices.antt =====
-- The indices of the gateway (apps/control-plane/internal/httpapi/protocol.go) after any requests.
use epistemic_engine.Prelude.{String, true, List, some, ◌≡◌, refl, sym, ◌∙◌, ap}
use epistemic_engine.Go.Map.{lookup}
use epistemic_engine.Protocol.Types.{Event}
use epistemic_engine.Service.System.{System}
use epistemic_engine.Gateway.State.{
  ProtocolState, Gateway, GatewayEnv, new_protocol_state, key_of, is_ordered, slot_of,
}
use epistemic_engine.Gateway.Slots.{lookup_slot}
use epistemic_engine.Gateway.Consistency.{IsConsistent, new_protocol_state-IsConsistent}
use epistemic_engine.Gateway.Rollback.{Agrees-IsConsistent}
use epistemic_engine.Gateway.Safety.{accept-Kept}
use epistemic_engine.Gateway.Evaluate.{note_run, note_result}
use epistemic_engine.Gateway.Invariant.Handlers.{Survives, evaluate_new-Stays}
use epistemic_engine.Gateway.Invariant.Requests.{
  Request, OnProtocol, OnProtocol-call, OnProtocol-Survives, serve, serve-stays,
}

abbrev pub new_gateway : System → Gateway
new_gateway s = record { protocol = new_protocol_state; system = s; ticks = 0 }

-- No two stored events share an idempotency key, or a place in the order of a partition.
pub record IsExclusive (p : ProtocolState) : Type 0 where
  pub keys :
      (i j : String) (e f : Event)
      → lookup i p.events ≡ some e
      → lookup j p.events ≡ some f
      → key_of e ≡ key_of f
      → i ≡ j
  pub places :
      (i j : String) (e f : Event)
      → lookup i p.events ≡ some e
      → lookup j p.events ≡ some f
      → is_ordered e ≡ true
      → is_ordered f ≡ true
      → slot_of e ≡ slot_of f
      → i ≡ j

some_injective : {A : Type 0} → (a b : A) → some a ≡ some b → a ≡ b
some_injective a b h = cc

IsConsistent-IsExclusive : (p : ProtocolState) → IsConsistent p → IsExclusive p
IsConsistent-IsExclusive p c = record {
  keys = λ i j e f here there same.
      some_injective i j
        (sym (c.own_key i e here) ∙ ap (λ k. lookup k p.idempotency) same ∙ c.own_key j f there);
  places = λ i j e f here there o o' same. some_injective i j (
      sym (c.own_slot i e here o)
      ∙ ap (λ s. lookup_slot s p.sequences) same
      ∙ c.own_slot j f there o');
}

module _ (env : GatewayEnv) where
  same_indices :
      (p q : ProtocolState)
      → p.events ≡ q.events
      → p.idempotency ≡ q.idempotency
      → p.sequences ≡ q.sequences
      → p.events_by_decision ≡ q.events_by_decision
      → IsConsistent q
      → IsConsistent p
  same_indices p q e i s l c =
      Agrees-IsConsistent p q
        (record {
          events = λ id. ap (lookup id) e;
          idempotency = λ key. ap (lookup key) i;
          sequences = λ slot. ap (lookup_slot slot) s;
          lists = λ d. rw l refl;
        })
        c

  IsConsistent-Survives : Survives env (OnProtocol IsConsistent)
  unfolding note_run
  IsConsistent-Survives =
      OnProtocol-Survives env IsConsistent (λ e g c. (accept-Kept env e g c).consistent)
        (λ id run g c. same_indices _ g.protocol refl refl refl refl c)

  serve-IsConsistent :
      (rs : List Request) (g : Gateway)
      → OnProtocol IsConsistent g
      → OnProtocol IsConsistent (serve env rs g)
  unfolding note_result
  serve-IsConsistent =
      serve-stays env IsConsistent-Survives
        (λ r decision_id g new.
          (evaluate_new-Stays env IsConsistent-Survives decision_id r (λ c. Unit {0})
              (λ f id. OnProtocol-call IsConsistent f _) (λ f id g c x e. tt)
              (λ context internal graph c q made g h. record {
                held = same_indices _ g.protocol refl refl refl refl h.held;
              })).at
            g)
        (λ f quiet g h. record {
          held =
              let same = quiet.same g.protocol in
              same_indices _ g.protocol (ap (λ p. p.events) same) (ap (λ p. p.idempotency) same)
                (ap (λ p. p.sequences) same) (ap (λ p. p.events_by_decision) same) h.held;
        })

-- After any requests to a new gateway, refused events and evaluations that fail among them, no two
-- stored events share an idempotency key, and no two that are ordered share a partition and a number.
pub serve-IsExclusive :
    (env : GatewayEnv) (rs : List Request) (s : System)
    → IsExclusive (serve env rs (new_gateway s)).protocol
serve-IsExclusive env rs s =
    IsConsistent-IsExclusive _
      (serve-IsConsistent env rs (new_gateway s)
        (record { held = new_protocol_state-IsConsistent })).held
