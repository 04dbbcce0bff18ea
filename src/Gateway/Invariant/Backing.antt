-- ===== src/Gateway/Invariant/Backing.antt =====
-- What the results of the gateway (apps/control-plane/internal/httpapi/protocol.go) say after any
-- requests: whose approval they rest on, and what their certificates prove.
use mathlib.Core.Path.{subst}
use epistemic_engine.Prelude.{
  String, Bool, true, List, [], ◌∷◌, none, some, ◌≡◌, refl, sym, ◌∙◌, ap, arith, ◌==◌, eq_iff,
  any_of, All, Bool-cases, inl, inr,
}
use epistemic_engine.Go.Effect as Effect
use epistemic_engine.Go.Map.{lookup, lookup-insert}
use epistemic_engine.Domain.Claim.{Graph}
use epistemic_engine.Domain.Certificate as Engine
use epistemic_engine.Protocol.Types.{Context, Certificate}
use epistemic_engine.Service.Evaluation as Evaluation
use epistemic_engine.Service.Evaluation.{unsigned_certificate}
use epistemic_engine.Service.Invariant.Base.{OnRepo}
use epistemic_engine.Service.Invariant.Certificates.{
  OnCertificates, AllCertificates, AllCertificates-repo,
}
use epistemic_engine.Service.Invariant.Outcomes.{evaluate-keeps}
use epistemic_engine.Service.Invariant.Issuing.{evaluate-Saved}
use epistemic_engine.Service.Invariant.Reach.{new_system}
use epistemic_engine.Gateway.Failures.{Failure}
use epistemic_engine.Gateway.State.{Gateway, GatewayEnv}
use epistemic_engine.Gateway.Portable.{portable_result, portable_certificate}
use epistemic_engine.Gateway.Reply.{ok, Step, call, reply_of}
use epistemic_engine.Gateway.Evaluate.{note_result, issued}
use epistemic_engine.Gateway.Invariant.Handlers.{Survives, evaluate_new-Stays}
use epistemic_engine.Gateway.Invariant.Approval.{
  approves, IsBacked, AllBacked, IsLawful, Implies, Covers-IsLawful, portable_certificate-IsProved,
}
use epistemic_engine.Gateway.Invariant.Steps.{Stays}
use epistemic_engine.Gateway.Invariant.Indices.{new_gateway}
use epistemic_engine.Gateway.Invariant.Requests.{
  Request, emit_event, emit_batch, evaluate_decision, open_stream, close_stream, next_of_stream,
  AdmittedRequest, OnProtocol, OnSystem, OnProtocol-call, serve, serve_admitted-stays,
}
use epistemic_engine.Gateway.Invariant.Results.{
  OnResults, OnResults-Survives, OnSystem-Survives, OnSystem-call,
}

module _ (env : GatewayEnv) (approval : Bool) where
  abbrev Sound : Gateway → Type 0
  Sound = OnSystem (OnRepo (OnCertificates (AllCertificates (IsLawful approval))))

  abbrev Made : Gateway → Type 0
  Made = OnProtocol (AllBacked env approval)

  -- Both at once: lawful certificates of the service, and results made of them.
  record IsSafe (g : Gateway) : Type 0 where
    sound : Sound g
    made : Made g

  AllBacked-OnResults : OnResults env (AllBacked env approval)
  AllBacked-OnResults = record {
    moved =
        λ p q same h. record { backed = λ id r e. h.backed id r (sym (ap (lookup id) same) ∙ e) };
  }

  both : {A : Type 0} (step : Step A) → Stays Sound step → Stays Made step → Stays IsSafe step
  both step s m = record { at = λ g h. record { sound = s.at g h.sound; made = m.at g h.made } }

  IsSafe-Survives : Survives env IsSafe
  IsSafe-Survives =
      let s = OnSystem-Survives env (AllCertificates-repo env.service (IsLawful approval)) in
      let m = OnResults-Survives env (AllBacked env approval) AllBacked-OnResults in
      record {
        accepted = λ e g h. record { sound = s.accepted e g h.sound; made = m.accepted e g h.made };
        run_created = λ f input. both _ (s.run_created f input) (m.run_created f input);
        event_added = λ f id input. both _ (s.event_added f id input) (m.event_added f id input);
        analyzed = λ f id. both _ (s.analyzed f id) (m.analyzed f id);
        run_noted = λ id run g h. record {
          sound = s.run_noted id run g h.sound;
          made = m.run_noted id run g h.made;
        };
        ticked = λ g h. record { sound = s.ticked g h.sound; made = m.ticked g h.made };
      }

  reply_of-ok :
      {A : Type 0} (f : Failure) (r : Effect.Result A) (a : A)
      → reply_of f r ≡ ok a
      → r ≡ Effect.ok a
  reply_of-ok f (Effect.ok b) a h = cc h
  reply_of-ok f (Effect.err x) a h = cc h

  module _ (f : Failure) (id : String) (approved : Bool) (fits : Implies approval approved) where
    abbrev evaluation : Step Engine.Certificate
    evaluation = call f (Evaluation.evaluate env.service id approved)

    evaluated : Stays IsSafe evaluation
    evaluated =
        both _
          (OnSystem-call env (AllCertificates-repo env.service (IsLawful approval)) f _ (
            evaluate-keeps env.service (AllCertificates-repo env.service (IsLawful approval)) id
              approved (Covers-IsLawful env approval approved fits)))
          (OnProtocol-call (AllBacked env approval) f _)

    returned :
        (g : Gateway)
        → IsSafe g
        → (c : Engine.Certificate) → (evaluation g).0 ≡ ok c
        → IsLawful approval c
    unfolding call
    returned g h c e =
        evaluate-Saved env.service id approved (IsLawful approval)
          (Covers-IsLawful env approval approved fits) g.system h.sound.held c (reply_of-ok f _ c e)

  noted :
      (decision_id : String) (context : Context) (internal : Engine.Certificate) (graph : Graph)
      (c : Certificate)
      → IsLawful approval internal
      → portable_certificate env (portable_result decision_id context internal graph) internal
        ≡ some c
      → (g : Gateway) → AllBacked env approval g.protocol
      → AllBacked env approval
          (note_result decision_id
            (issued (portable_result decision_id context internal graph) c)
            c
            g).protocol
  unfolding note_result portable_result
  noted decision_id context internal graph c lawful made g h =
      let result = issued (portable_result decision_id context internal graph) c in
      let new : IsBacked env approval decision_id result = record {
        decision = refl;
        approved = lawful.approved;
        cleared = lawful.cleared;
        proved = portable_certificate-IsProved env _ internal c made;
      } in
      record {
        backed = λ id r e. elim (Bool-cases (decision_id == id)) [
          | inl same ↦
              let found : result ≡ r = cc (rw (lookup-insert, same) at e) in
              subst (λ k. IsBacked env approval k r) ((eq_iff decision_id id).0 same)
                (subst (IsBacked env approval decision_id) found new)
          | inr other ↦ h.backed id r (rw (lookup-insert, other) at e)
        ];
      }

  serve-IsSafe :
      (rs : List Request) (g : Gateway)
      → All (AdmittedRequest (Implies approval)) rs
      → IsSafe g
      → IsSafe (serve env rs g)
  unfolding note_result
  serve-IsSafe =
      serve_admitted-stays env IsSafe-Survives (Implies approval)
        (λ r fits decision_id g new.
          (evaluate_new-Stays env IsSafe-Survives decision_id r (IsLawful approval)
              (λ f id. evaluated f id r.approval.approved fits)
              (λ f id. returned f id r.approval.approved fits)
              (λ context internal graph c q made g h. record {
                sound = record { held = h.sound.held };
                made = record {
                  held = noted decision_id context internal graph c q made g h.made.held;
                };
              })).at
            g)
        (λ f quiet g h. record {
          sound = record { held = h.sound.held };
          made = record {
            held =
                AllBacked-OnResults.moved g.protocol _ (ap (λ p. p.results) (quiet.same g.protocol))
                  h.made.held;
          };
        })

  new_gateway-IsSafe : IsSafe (new_gateway new_system)
  unfolding lookup
  new_gateway-IsSafe = record {
    sound = record { held = record { held = record { held = record { each = λ id c e. cc } } } };
    made = record { held = record { backed = λ id r e. cc } };
  }

-- Each request is admitted by the approval of some request among all.
admitted :
    (approval : Bool) (r : Request)
    → (approves r ≡ true → approval ≡ true)
    → AdmittedRequest (Implies approval) r
admitted approval (emit_event header body) h = tt
admitted approval (emit_batch header body) h = tt
admitted approval (evaluate_decision header none) h = tt
admitted approval (evaluate_decision header (some r)) h = h
admitted approval open_stream h = tt
admitted approval (close_stream id) h = tt
admitted approval (next_of_stream id) h = tt

requests_admitted :
    (approval : Bool) (rs : List Request)
    → (any_of approves rs ≡ true → approval ≡ true)
    → All (AdmittedRequest (Implies approval)) rs
requests_admitted approval [] h = tt
requests_admitted approval (r ∷ rs) h = (
  admitted approval r (λ a. h (rw a refl)),
  requests_admitted approval rs (λ a. h (ground arith)),
)

-- After any requests to a gateway before a new service, every result that it holds stands under its
-- own decision; it allows the action only if some evaluation among the requests carried a human's
-- approval, and then its status is "allow"; and a certificate is attached to it that names this
-- decision, holds the JSON of this result without the certificate, and proves itself: it names
-- SHA-256, and its digest is the hash of its content without the digest.
pub serve-AllBacked :
    (env : GatewayEnv) (rs : List Request)
    → AllBacked env (any_of approves rs) (serve env rs (new_gateway new_system)).protocol
serve-AllBacked env rs =
    let approval = any_of approves rs in
    (serve-IsSafe env approval rs (new_gateway new_system) (requests_admitted approval rs (λ a. a))
      (new_gateway-IsSafe env approval)).made.held
