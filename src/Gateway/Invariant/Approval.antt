-- ===== src/Gateway/Invariant/Approval.antt =====
-- What a result of the gateway (apps/control-plane/internal/httpapi/protocol.go) rests on: an approval,
-- the verdict of the service, and a certificate that proves itself.
use mathlib.Core.Path.{subst}
use epistemic_engine.Prelude.{
  String, Bool, true, false, Option, List, [], ◌∷◌, none, some, ◌≡◌, refl, Option-cases, inl, inr,
}
use epistemic_engine.Go.Map.{lookup}
use epistemic_engine.Domain.Status.{Verdict}
use epistemic_engine.Domain.Claim.{Graph}
use epistemic_engine.Domain.Certificate as Engine
use epistemic_engine.Policy
use epistemic_engine.Policy.Laws as Laws
use epistemic_engine.Protocol.Types.{DecisionResult, Certificate}
use epistemic_engine.Service.Evaluation.{unsigned_certificate}
use epistemic_engine.Service.Invariant.Outcomes.{Covers}
use epistemic_engine.Gateway.State.{ProtocolState, GatewayEnv}
use epistemic_engine.Gateway.Portable.{status_of, portable_certificate, unproved}
use epistemic_engine.Gateway.Evaluate.{issued}
use epistemic_engine.Gateway.Invariant.Requests.{Request, evaluate_decision}

-- An evaluation that carries the approval of a human.
abbrev pub approves : Request → Bool
approves (evaluate_decision header (some r)) = r.approval.approved
approves _ = false

-- A certificate that is attached to the result, names its decision, holds its JSON without the
-- certificate, and proves itself with the hash of its content without the digest.
pub record IsProved (env : GatewayEnv) (r : DecisionResult) : Type 0 where
  pub content : Certificate
  pub attached : r.certificate ≡ some content
  pub decision : content.decision_id ≡ r.decision_id
  pub result : env.marshal_result (record r { certificate = none }) ≡ some content.result
  pub algorithm : content.proof.algorithm ≡ "SHA-256"
  pub digest :
      env.certificate_hash (record content { proof = record content.proof { digest = "" } })
      ≡ some content.proof.digest

-- A result of this decision, given whether some request carried an approval.
pub record IsBacked (env : GatewayEnv) (approval : Bool) (id : String) (r : DecisionResult)
    : Type 0 where
  pub decision : r.decision_id ≡ id
  pub approved : r.action_allowed ≡ true → approval ≡ true
  pub cleared : r.action_allowed ≡ true → r.status ≡ "allow"
  pub proved : IsProved env r

pub record AllBacked (env : GatewayEnv) (approval : Bool) (p : ProtocolState) : Type 0 where
  pub backed :
      (id : String) (r : DecisionResult) → lookup id p.results ≡ some r → IsBacked env approval id r

-- A certificate of the service that allows its action only if some request carried an approval, and
-- with a verdict that the gateway reports as "allow".
pub record IsLawful (approval : Bool) (c : Engine.Certificate) : Type 0 where
  pub approved : c.action_allowed ≡ true → approval ≡ true
  pub cleared : c.action_allowed ≡ true → status_of c.verdict ≡ "allow"

allowed_result :
    (v : Option Verdict) (conditions : List String) (approved : Bool)
    → (Laws.result_of v conditions approved).action_allowed ≡ true
    → status_of (Laws.result_of v conditions approved).verdict ≡ "allow"
unfolding status_of
allowed_result (some v) conditions approved h = cc
allowed_result none [] approved h = refl
allowed_result none (c ∷ cs) approved h = refl

allowed-status_of :
    (g : Graph) (approved : Bool)
    → (Policy.evaluate g approved).action_allowed ≡ true
    → status_of (Policy.evaluate g approved).verdict ≡ "allow"
allowed-status_of g approved h = rw (Laws.evaluate-eq-spec g approved) (
    allowed_result (Laws.first_obstacle g) (Laws.expected_conditions g) approved
      (rw (Laws.evaluate-eq-spec g approved) at h))

abbrev pub Implies : Bool → Bool → Type 0
Implies approval approved = approved ≡ true → approval ≡ true

pub Covers-IsLawful :
    (env : GatewayEnv) (approval approved : Bool)
    → Implies approval approved
    → Covers env.service approved (IsLawful approval)
unfolding unsigned_certificate
Covers-IsLawful env approval approved fits = record {
  saved = λ g now digest e. record {
    approved = λ a. fits ((Laws.action_allowed-evaluate_iff g approved).0 a).0;
    cleared = allowed-status_of g approved;
  };
}

pub portable_certificate-IsProved :
    (env : GatewayEnv) (result : DecisionResult) (internal : Engine.Certificate) (c : Certificate)
    → portable_certificate env result internal ≡ some c
    → IsProved env (issued result c)
unfolding portable_certificate
portable_certificate-IsProved env result internal c made =
    elim (Option-cases (env.marshal_result (record result { certificate = none }))) [
      | inl bad ↦ cc (rw (portable_certificate, bad) at made)
      | inr (bytes, encoded) ↦
          elim (Option-cases (env.certificate_hash (unproved result internal bytes))) [
            | inl bad ↦ cc (rw (portable_certificate, encoded, bad) at made)
            | inr (hash, hashed) ↦
                let same = rw (portable_certificate, encoded, hashed) at made in
                let c_ = record (unproved result internal bytes) {
                  proof = record { algorithm = "SHA-256"; digest = hash };
                } in
                let found : c_ ≡ c = cc same in
                subst (λ d. IsProved env (issued result d)) found
                  (record {
                    content = c_;
                    attached = refl;
                    decision = refl;
                    result = encoded;
                    algorithm = refl;
                    digest = hashed;
                  })
          ]
    ]
