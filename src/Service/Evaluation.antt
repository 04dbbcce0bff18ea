-- ===== src/Service/Evaluation.antt =====
-- apps/control-plane/internal/service/service.go: `Evaluate`, `Certificate`, `CertificateDigest`.
use epistemic_engine.Prelude.{String, Bool, not, none, some, List, ◌++◌, ◌==◌, map, select}
use epistemic_engine.Go.Effect.{failure, Result, ok, err, Exec, ◌>>=◌, ◌>>◌, pure, lift}
use epistemic_engine.Go.Numbers.{Time}
use epistemic_engine.Go.Sort.{sort_by}
use epistemic_engine.Domain.Run.{Decision}
use epistemic_engine.Domain.Claim.{Evidence, Verification, Graph}
use epistemic_engine.Domain.Certificate.{Proof, Certificate}
use epistemic_engine.Policy
use epistemic_engine.Memory.Graph.{get_graph_by_decision}
use epistemic_engine.Memory.Decisions.{save_decision, get_certificate, save_certificate}
use epistemic_engine.Service.System.{
  Env, System, Payload, repo_call, repo_read, read_clock, publish,
}

abbrev pub is_nonempty : String → Bool
is_nonempty s = not (s == "")

-- The hashes of the certificate, sorted.
unfoldable pub artifact_hashes : Graph → List String
artifact_hashes g =
    sort_by (λ (h : String). h)
      (select is_nonempty (map (λ (e : Evidence). e.content_hash) g.evidence)
        ++ select is_nonempty (map (λ (v : Verification). v.artifact_hash) g.verifications))

abbrev pub decided : Decision → Policy.Result → Bool → Time → Decision
decided d result human_approved now = record d {
  verdict = result.verdict;
  conditions = result.conditions;
  human_approved = human_approved;
  action_allowed = result.action_allowed;
  evaluated_at = some now;
}

abbrev pub no_proof : Proof
no_proof = record { algorithm = ""; digest = "" }

unfoldable pub unsigned_certificate : Graph → Decision → Time → Certificate
unfolding artifact_hashes
unsigned_certificate g d now = record {
  version = "1.0";
  decision_id = d.id;
  run_id = d.run_id;
  recommendation = d.recommendation;
  verdict = d.verdict;
  action_allowed = d.action_allowed;
  human_approved = d.human_approved;
  conditions = d.conditions;
  policy_version = d.policy_version;
  artifact_hashes = artifact_hashes g;
  claims = g.claims;
  verifications = g.verifications;
  issued_at = now;
  proof = no_proof;
}

abbrev pub signed : Certificate → String → Certificate
signed c digest = record c { proof = record { algorithm = "SHA-256"; digest = digest } }

module _ (env : Env) where
  -- `CertificateDigest`: the hash of the certificate without its proof.
  unfoldable pub certificate_digest : Certificate → Result String
  certificate_digest c = elim (env.marshal_certificate (record c { proof = no_proof })) [
    | none ↦ err (failure "json")
    | some bytes ↦ ok (env.sha256_hex bytes)
  ]

  -- Where the decision has no certificate yet.
  unfoldable pub issue : String → Bool → Exec System Certificate
  issue decision_id human_approved = do
    g ← repo_read (get_graph_by_decision decision_id)
    now ← read_clock env
    let d = decided g.decision (Policy.evaluate g human_approved) human_approved now
    repo_call (save_decision d)
    let unsigned = unsigned_certificate g d now
    digest ← lift (certificate_digest unsigned)
    let cert = signed unsigned digest
    repo_call (save_certificate cert)
    publish env d.run_id "decision.evaluated" (Payload.certificate cert)
    pure cert

  unfoldable pub reuse_or_issue : String → Bool → Result Certificate → Exec System Certificate
  reuse_or_issue decision_id human_approved (ok cert) = pure cert
  reuse_or_issue decision_id human_approved (err e) = issue decision_id human_approved

  unfoldable pub evaluate : String → Bool → Exec System Certificate
  evaluate decision_id human_approved s =
      reuse_or_issue decision_id human_approved (get_certificate decision_id s.repo) s

-- `s.Certificate`
unfoldable pub certificate : String → Exec System Certificate
certificate decision_id = repo_read (get_certificate decision_id)
