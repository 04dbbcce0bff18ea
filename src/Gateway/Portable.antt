-- ===== src/Gateway/Portable.antt =====
-- `portableResult`, `portableCertificate` and `normalizedRisk` of
-- apps/control-plane/internal/httpapi/protocol.go.
use epistemic_engine.Prelude.{
  String, not, Option, none, some, List, [], ◌∷◌, ◌++◌, ◌&&◌, ◌||◌, ◌==◌, if◌then◌else◌,
}
use epistemic_engine.Go.Numbers.{RawMessage}
use epistemic_engine.Go.Text.{concat}
use epistemic_engine.Domain.Status.{Verdict, is_contradicted}
use epistemic_engine.Domain.Claim.{Claim, Graph}
use epistemic_engine.Domain.Certificate as Engine
use epistemic_engine.Protocol.Types.{Context, Reason, DecisionResult, Certificate, protocol_version}
use epistemic_engine.Gateway.State.{GatewayEnv}

unfoldable pub normalized_risk : String → String
normalized_risk value =
    if value == "low" || value == "medium" || value == "high" || value == "critical"
    then value
    else "high"

-- The `switch` on the verdict: the status and the first reasons.
unfoldable pub status_of : Verdict → String
status_of Verdict.verified = "allow"
status_of Verdict.verified_with_conditions = "allow"
status_of _ = "block"

abbrev pub reason : String → String → Reason
reason code message = record { code = code; message = message; subject_id = "" }

unfoldable pub verdict_reasons : Verdict → List Reason
verdict_reasons Verdict.verified = []
verdict_reasons Verdict.verified_with_conditions = []
verdict_reasons Verdict.contradicted =
    reason "contradicted" "A critical claim is contradicted." ∷ []
verdict_reasons Verdict.rejected = reason "rejected" "A critical claim was rejected." ∷ []
verdict_reasons _ =
    reason "insufficient_evidence" "Critical evidence or verification is incomplete." ∷ []

abbrev pub claim_reason : Claim → Reason
claim_reason c = record { code = "contradicted"; message = c.statement; subject_id = c.id }

-- The loop over the claims.
unfoldable pub claim_reasons : List Claim → List Reason
claim_reasons [] = []
claim_reasons (c ∷ cs) =
    let rest = claim_reasons cs in if is_contradicted c.state then claim_reason c ∷ rest else rest

unfoldable pub portable_result : String → Context → Engine.Certificate → Graph → DecisionResult
unfolding status_of verdict_reasons claim_reasons
portable_result id context certificate graph =
    let status = status_of certificate.verdict in
    record {
      spec_version = protocol_version;
      decision_id = id;
      status = status;
      action_allowed = certificate.action_allowed;
      reasons = verdict_reasons certificate.verdict ++ claim_reasons graph.claims;
      conditions =
          if status == "allow" && not certificate.action_allowed
          then certificate.conditions
            ++ "Human approval is required before consequential action." ∷ []
          else certificate.conditions;
      evaluated_at = certificate.issued_at;
      context = context;
      certificate = none;
    }

abbrev pub unproved : DecisionResult → Engine.Certificate → RawMessage → Certificate
unproved result internal bytes = record {
  spec_version = protocol_version;
  id = concat "proof-" result.decision_id;
  decision_id = result.decision_id;
  result = bytes;
  artifact_hashes = internal.artifact_hashes;
  issued_at = internal.issued_at;
  supersedes = "";
  proof = record { algorithm = "SHA-256"; digest = "" };
}

abbrev pub proved : Certificate → String → Certificate
proved c digest = record c { proof = record c.proof { digest = digest } }

module _ (env : GatewayEnv) where
  unfoldable pub portable_certificate : DecisionResult → Engine.Certificate → Option Certificate
  portable_certificate result internal =
      elim (env.marshal_result (record result { certificate = none })) [
        | none ↦ none
        | some bytes ↦
            let c = unproved result internal bytes in
            elim (env.certificate_hash c) [ none ↦ none | some digest ↦ some (proved c digest) ]
      ]
