-- ===== src/Gateway/Invariant/Handlers.antt =====
-- The handlers of apps/control-plane/internal/httpapi/protocol.go keep what its writes and its calls of
-- the service keep.
use epistemic_engine.Prelude.{
  suc, String, Bool, Option, none, some, List, [], ◌∷◌, ◌≡◌, Option-cases, Bool-cases, inl, inr,
  ltb, length,
}
use epistemic_engine.Go.Map.{lookup}
use epistemic_engine.Domain.Run.{Run}
use epistemic_engine.Domain.Claim.{Graph}
use epistemic_engine.Domain.Certificate as Engine
use epistemic_engine.Protocol.Types.{Event, Context, DecisionRequest, DecisionResult, Certificate}
use epistemic_engine.Protocol.Validation.{validate_decision_request}
use epistemic_engine.Service.Runs.{CreateRunInput, AddEventInput, create_run, add_event}
use epistemic_engine.Service.Analysis.{analyze}
use epistemic_engine.Service.Evaluation as Evaluation
use epistemic_engine.Gateway.Failures.{Failure}
use epistemic_engine.Gateway.State.{Gateway, GatewayEnv, Generated}
use epistemic_engine.Gateway.Accept.{accept}
use epistemic_engine.Gateway.Portable.{portable_result, portable_certificate}
use epistemic_engine.Gateway.Reply.{ok, give, stop, call, need}
use epistemic_engine.Gateway.Requests.{
  BatchReply, max_batch, in_context, accept_step, emit, tally, take_events, batch,
}
use epistemic_engine.Gateway.Evaluate.{
  note_run, note_result, issued, write, forward_buffered, take_request_events, tick, drop_answer,
  emit_generated, announce, conclude, evaluate_new, evaluate_once, decision_name, evaluate_request,
  evaluate, in_decision,
}
use epistemic_engine.Gateway.Invariant.Steps.{
  Stays, Stays-bind, Stays-bind_answered, Stays-give, Stays-need, Stays-read, stays_rules,
}

-- What a property of the gateway has to survive, the evaluation of a decision by the service and
-- the write of its result aside.
pub record Survives (env : GatewayEnv) (P : Gateway → Type 0) : Type 0 where
  pub accepted : (e : Event) (g : Gateway) → P g → P (accept env e g).1
  pub run_created :
      (f : Failure) (input : CreateRunInput) → Stays P (call f (create_run env.service input))
  pub event_added :
      (f : Failure) (id : String) (input : AddEventInput)
      → Stays P (call f (add_event env.service id input))
  pub analyzed : (f : Failure) (id : String) → Stays P (call f (analyze env.service id))
  pub run_noted : (id : String) (run : Run) (g : Gateway) → P g → P (note_run id run g)
  pub ticked : (g : Gateway) → P g → P (record g { ticks = suc g.ticks })

need-some :
    {A : Type 0} (f : Failure) (found : Option A) (g : Gateway) (a : A)
    → (need f found g).0 ≡ ok a
    → found ≡ some a
unfolding need
need-some f none g a h = cc
need-some f (some b) g a h = cc h

-- The approval of a request that decodes is admitted.
abbrev pub AdmittedBody : (Bool → Type 0) → Option DecisionRequest → Type 0
AdmittedBody Admitted none = Unit
AdmittedBody Admitted (some r) = Admitted r.approval.approved

module _ (env : GatewayEnv) {P : Gateway → Type 0} (kept : Survives env P) where
  accept_step-Stays : (e : Event) → Stays P (accept_step env e)
  unfolding accept_step
  accept_step-Stays e = record { at = kept.accepted e }

  pub emit-Stays : (header : String) (body : Option Event) → Stays P (emit env header body)
  unfolding emit stop
  emit-Stays header none = record { at = λ g p. p }
  emit-Stays header (some e) = record { at = (accept_step-Stays (in_context header e)).at }

  take_events-stays :
      (header : String) (r : BatchReply) (es : List Event) (g : Gateway)
      → P g
      → P (take_events env header r es g).1
  unfolding take_events
  take_events-stays header r [] g p = p
  take_events-stays header r (e ∷ es) g p =
      let (answer, g') = accept env (in_context header e) g in
      take_events-stays header (tally e.id answer r) es g' (kept.accepted (in_context header e) g p)

  pub batch-Stays : (header : String) (body : Option (List Event)) → Stays P (batch env header body)
  unfolding batch stop give
  batch-Stays header none = record { at = λ g p. p }
  batch-Stays header (some es) = record {
    at = λ g p. elim (Bool-cases (ltb max_batch (length es))) [
      | inl t ↦ rw (batch, t) p
      | inr f ↦ rw (batch, f) (take_events-stays header _ es g p)
    ];
  }

  forward_buffered-Stays :
      (run_id : String) (ids : List String) → Stays P (forward_buffered env run_id ids)
  unfolding forward_buffered
  forward_buffered-Stays run_id [] = search stays_rules
  forward_buffered-Stays run_id (id ∷ ids) =
      Stays-bind _ _ (Stays-read _)
        (λ e. Stays-bind _ _ (kept.event_added _ _ _) (λ u. forward_buffered-Stays run_id ids))

  take_request_events-Stays :
      (decision_id run_id : String) (es : List Event)
      → Stays P (take_request_events env decision_id run_id es)
  unfolding take_request_events
  take_request_events-Stays decision_id run_id [] = search stays_rules
  take_request_events-Stays decision_id run_id (e ∷ es) =
      Stays-bind _ _ (accept_step-Stays _) (λ u. take_request_events-Stays decision_id run_id es)

  tick-Stays : Stays P tick
  unfolding tick give
  tick-Stays = record { at = kept.ticked }

  drop_answer-Stays : (e : Event) → Stays P (drop_answer env e)
  unfolding drop_answer give
  drop_answer-Stays e = record { at = kept.accepted e }

  emit_generated-Stays :
      (type dashed decision_id run_id subject_type subject_id : String) (value : Generated)
      → Stays P (emit_generated env type dashed decision_id run_id subject_type subject_id value)
  unfolding emit_generated
  emit_generated-Stays type dashed decision_id run_id subject_type subject_id value =
      search (stays_rules, tick-Stays, drop_answer-Stays)

  announce-Stays :
      (r : DecisionRequest) (run_id : String) (result : DecisionResult) (certificate : Certificate)
      → Stays P (announce env r run_id result certificate)
  unfolding announce
  announce-Stays r run_id result certificate = search (stays_rules, emit_generated-Stays) depth 12

  note_run-Stays : (id : String) (run : Run) → Stays P (write (note_run id run))
  unfolding write give
  note_run-Stays id run = record { at = kept.run_noted id run }

  decision_name-Stays : (r : DecisionRequest) → Stays P (decision_name env r)
  unfolding decision_name
  decision_name-Stays r = search (stays_rules, tick-Stays)

  -- `Q` holds of every certificate that the service returns for the approval of the request, and a
  -- result that is made of such a certificate may be written.
  module _ (decision_id : String) (r : DecisionRequest) (Q : Engine.Certificate → Type 0)
      (evaluated : (f : Failure) (id : String)
        → Stays P (call f (Evaluation.evaluate env.service id r.approval.approved)))
      (returned : (f : Failure) (id : String) (g : Gateway)
        → P g
        → (c : Engine.Certificate)
        → (call f (Evaluation.evaluate env.service id r.approval.approved) g).0 ≡ ok c
        → Q c)
      (noted : (context : Context) (internal : Engine.Certificate) (graph : Graph) (c : Certificate)
        → Q internal
        → portable_certificate env (portable_result decision_id context internal graph) internal
          ≡ some c
        → (g : Gateway) → P g
        → P (
            note_result decision_id
              (issued (portable_result decision_id context internal graph) c)
              c
              g)) where
    conclude-Stays :
        (run_id : String) (internal : Engine.Certificate) (graph : Graph)
        → Q internal
        → Stays P (conclude env r decision_id run_id internal graph)
    unfolding conclude write give
    conclude-Stays run_id internal graph q =
        Stays-bind_answered _ _ _ (Stays-need _ _) (λ g p. need-some _ _ g)
          (λ c made.
            Stays-bind _ _ (record { at = noted _ internal graph c q made })
              (λ u. Stays-bind _ _ (announce-Stays r run_id _ c) (λ u. Stays-give _)))

    pub evaluate_new-Stays : Stays P (evaluate_new env r decision_id)
    unfolding evaluate_new
    evaluate_new-Stays = Stays-bind _ _ (kept.run_created _ _) (λ run.
        Stays-bind _ _ (note_run-Stays _ run) (λ u. Stays-bind _ _ (Stays-read _) (λ ids.
          Stays-bind _ _ (forward_buffered-Stays _ _) (λ u.
            Stays-bind _ _ (take_request_events-Stays _ _ _) (λ u.
              Stays-bind _ _ (kept.analyzed _ _) (λ graph.
                Stays-bind_answered _ _ Q (evaluated _ _) (returned _ _)
                  (λ internal q. conclude-Stays _ internal graph q)))))))

  -- `first` is about a decision without a result, and a request whose approval is admitted.
  module _ (Admitted : Bool → Type 0)
      (first : (r : DecisionRequest)
        → Admitted r.approval.approved
        → (decision_id : String) (g : Gateway) → lookup decision_id g.protocol.results ≡ none
        → P g
        → P (evaluate_new env r decision_id g).1) where
    evaluate_once-Stays :
        (r : DecisionRequest)
        → Admitted r.approval.approved
        → (decision_id : String) → Stays P (evaluate_once env r decision_id)
    unfolding evaluate_once give
    evaluate_once-Stays r fits decision_id = record {
      at = λ g p. elim (Option-cases (lookup decision_id g.protocol.results)) [
        | inr (result, there) ↦ rw (evaluate_once, there) p
        | inl new ↦
            rw (evaluate_once, new) (first (in_decision decision_id r) fits decision_id g new p)
      ];
    }

    evaluate_request-Stays :
        (r : DecisionRequest) → Admitted r.approval.approved → Stays P (evaluate_request env r)
    unfolding evaluate_request stop
    evaluate_request-Stays r fits = record {
      at = λ g p. elim (Option-cases (validate_decision_request r)) [
        | inr (x, bad) ↦ rw (evaluate_request, bad) p
        | inl fine ↦
            rw (evaluate_request, fine)
              ((Stays-bind _ _ (decision_name-Stays r) (evaluate_once-Stays r fits)).at g p)
      ];
    }

    pub evaluate-Stays :
        (header : String) (body : Option DecisionRequest)
        → AdmittedBody Admitted body
        → Stays P (evaluate env header body)
    unfolding evaluate stop
    evaluate-Stays header none fits = record { at = λ g p. p }
    evaluate-Stays header (some r) fits = record { at = (evaluate_request-Stays _ fits).at }
