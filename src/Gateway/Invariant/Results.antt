-- ===== src/Gateway/Invariant/Results.antt =====
-- The results that the gateway (apps/control-plane/internal/httpapi/protocol.go) keeps, and the service
-- behind it, after any requests.
use epistemic_engine.Prelude.{
  String, false, List, none, some, ◌≡◌, refl, ◌∙◌, ap, ◌==◌, eq_iff, Bool-cases, inl, inr,
}
use epistemic_engine.Go.Map.{lookup, lookup-insert}
use epistemic_engine.Go.Keeps.{Keeps}
use epistemic_engine.Protocol.Types.{DecisionRequest, DecisionResult}
use epistemic_engine.Protocol.Validation.{validate_decision_request}
use epistemic_engine.Domain.Certificate.{Certificate}
use epistemic_engine.Memory.State.{Memory}
use epistemic_engine.Service.Invariant.Base.{RepoKeeps, OnRepo}
use epistemic_engine.Service.Invariant.Requests.{create_run-keeps, add_event-keeps, analyze-keeps}
use epistemic_engine.Gateway.Context.{merge_context_header}
use epistemic_engine.Gateway.State.{ProtocolState, Gateway, GatewayEnv, add, undo, broadcast}
use epistemic_engine.Gateway.Reply.{ok, call, give, ◌>>=◌}
use epistemic_engine.Gateway.Evaluate.{
  note_run, note_result, evaluate_once, evaluate_request, evaluate, decision_name,
}
use epistemic_engine.Gateway.Invariant.Accept.{accept-stays}
use epistemic_engine.Gateway.Invariant.Steps.{Stays}
use epistemic_engine.Gateway.Invariant.Handlers.{Survives, evaluate_new-Stays}
use epistemic_engine.Gateway.Invariant.Requests.{
  Request, OnProtocol, OnSystem, OnProtocol-call, OnProtocol-Survives, serve, serve-stays,
}

module _ (env : GatewayEnv) where
  -- What only looks at the results.
  pub record OnResults (Q : ProtocolState → Type 0) : Type 0 where
    pub moved : (p q : ProtocolState) → q.results ≡ p.results → Q p → Q q

  pub OnResults-Survives : (Q : ProtocolState → Type 0) → OnResults Q → Survives env (OnProtocol Q)
  unfolding note_run add undo broadcast
  OnResults-Survives Q on =
      OnProtocol-Survives env Q
        (λ e g h.
          (accept-stays env {P = OnProtocol Q}
            (λ e g h. record { held = on.moved g.protocol _ refl h.held })
            (λ e g h. record { held = on.moved g.protocol _ refl h.held })
            (λ e g h. record { held = on.moved g.protocol _ refl h.held })
            (λ id input g h. record { held = h.held }) e g (record { held = h })).held)
        (λ id run g h. on.moved g.protocol _ refl h)

  record HasResult (id : String) (r : DecisionResult) (p : ProtocolState) : Type 0 where
    there : lookup id p.results ≡ some r

  HasResult-OnResults : (id : String) (r : DecisionResult) → OnResults (HasResult id r)
  HasResult-OnResults id r = record {
    moved = λ p q same h. record { there = ap (lookup id) same ∙ h.there };
  }

  unlike :
      (id decision_id : String) (r : DecisionResult) (g : Gateway)
      → lookup decision_id g.protocol.results ≡ none
      → lookup id g.protocol.results ≡ some r
      → (decision_id == id) ≡ false
  unlike id decision_id r g new there = elim (Bool-cases (decision_id == id)) [
    | inr f ↦ f
    | inl t ↦ cc (new, there, (eq_iff decision_id id).0 t)
  ]

  note_result-HasResult :
      (id decision_id : String) (r s : DecisionResult) (c : _) (g : Gateway)
      → (decision_id == id) ≡ false
      → HasResult id r g.protocol
      → HasResult id r (note_result decision_id s c g).protocol
  unfolding note_result
  note_result-HasResult id decision_id r s c g other h = record {
    there = rw (lookup-insert, other) h.there;
  }

  serve-HasResult :
      (id : String) (r : DecisionResult) (rs : List Request) (g : Gateway)
      → OnProtocol (HasResult id r) g
      → OnProtocol (HasResult id r) (serve env rs g)
  serve-HasResult id r =
      let kept = OnResults-Survives (HasResult id r) (HasResult-OnResults id r) in
      serve-stays env kept
        (λ q decision_id g new h.
          let other = unlike id decision_id r g new h.held.there in
          (evaluate_new-Stays env kept decision_id q (λ c. Unit {0})
              (λ f _. OnProtocol-call (HasResult id r) f _) (λ f id g c x e. tt)
              (λ context internal graph c q made g h. record {
                held = note_result-HasResult id decision_id r _ c g other h.held;
              })).at
            g h)
        (λ f quiet g h. record {
          held =
              (HasResult-OnResults id r).moved g.protocol _
                (ap (λ p. p.results) (quiet.same g.protocol)) h.held;
        })

module _ (env : GatewayEnv) {M : Memory → Type 0} {Saved : Certificate → Type 0}
    (repo : RepoKeeps env.service M Saved) where
  pub OnSystem-call :
      {A : Type 0} (f : _) (operation : _)
      → Keeps (OnRepo M) operation
      → Stays (OnSystem (OnRepo M)) (call {A = A} f operation)
  unfolding call
  OnSystem-call f operation k = record { at = λ g h. record { held = k.at g.system h.held } }

  pub OnSystem-Survives : Survives env (OnSystem (OnRepo M))
  unfolding note_run
  OnSystem-Survives = record {
    accepted = λ e g h.
        accept-stays env {P = OnSystem (OnRepo M)} (λ e g h. record { held = h.held })
          (λ e g h. record { held = h.held }) (λ e g h. record { held = h.held })
          (λ id input g h. record {
            held = (add_event-keeps env.service repo id input).at g.system h.held;
          })
          e g h;
    run_created = λ f input. OnSystem-call f _ (create_run-keeps env.service repo input);
    event_added = λ f id input. OnSystem-call f _ (add_event-keeps env.service repo id input);
    analyzed = λ f id. OnSystem-call f _ (analyze-keeps env.service repo id);
    run_noted = λ id run g h. record { held = h.held };
    ticked = λ g h. record { held = h.held };
  }

valid_anyway :
    (header : String) (r : DecisionRequest)
    → validate_decision_request (record r { context = merge_context_header r.context header })
      ≡ validate_decision_request r
unfolding validate_decision_request
valid_anyway header r = refl

-- Once the gateway holds a result for a decision, every valid request for that decision gets that
-- very result, with its certificate, and changes nothing, whatever was requested in between.
pub evaluate-again :
    (env : GatewayEnv) (rs : List Request) (g : Gateway) (result : DecisionResult) (header : String)
    (r : DecisionRequest)
    → lookup r.decision_id g.protocol.results ≡ some result
    → (r.decision_id == "") ≡ false
    → validate_decision_request r ≡ none
    → evaluate env header (some r) (serve env rs g) ≡ (ok result, serve env rs g)
unfolding evaluate evaluate_request evaluate_once decision_name ◌>>=◌ give
evaluate-again env rs g result header r there named valid =
    let later =
      (serve-HasResult env r.decision_id result rs g
        (record { held = record { there = there } })).held.there in
    rw (evaluate_request, valid_anyway header r, valid, decision_name, named)
      (rw (evaluate_once, later) refl)
