-- ===== src/Service/Completion.antt =====
-- apps/control-plane/internal/service/service.go: when `ExecuteVerification` and `Evaluate`
-- succeed, and with what.
use mathlib.Core.Path.{subst}
use epistemic_engine.Prelude.{
  suc, String, Bool, true, false, not, ◌&&◌, ◌||◌, ◌≡◌, ◌≢◌, refl, sym, some, none, arith, eq_iff,
  ◌==◌, Option-cases, inl, inr, is_empty,
}
use epistemic_engine.Go.Effect.{Result, ok, err, ◌>>=◌, ◌>>◌, pure}
use epistemic_engine.Go.Map.{lookup, lookup-insert_self}
use epistemic_engine.Go.Text.{or_default}
use epistemic_engine.Domain.Claim.{Verification, Graph}
use epistemic_engine.Memory.Graph.{get_graph_by_decision}
use epistemic_engine.Memory.State.{Memory}
use epistemic_engine.Memory.Verifications.{
  get_verification, update_verification, write_verification, apply_passed, apply_failed,
}
use epistemic_engine.Service.System.{
  Env, System, Payload, repo_read, repo_call, read_clock, publish,
}
use epistemic_engine.Domain.Run.{Decision}
use epistemic_engine.Domain.Certificate.{Proof, Certificate}
use epistemic_engine.Go.Numbers.{Time, RawMessage}
use epistemic_engine.Policy
use epistemic_engine.Memory.Decisions.{save_decision, save_certificate, get_certificate}
use epistemic_engine.Service.Evaluation.{
  evaluate, reuse_or_issue, issue, unsigned_certificate, certificate_digest, artifact_hashes,
  no_proof,
}
use epistemic_engine.Service.Execution.{
  ExecuteVerificationInput, execute_verification, finish_verification, obtain_result, announce,
  publish_completed,
}

publish-ok :
    (env : Env) (run_id kind : String) (p : Payload) (s : System)
    → (publish env run_id kind p s).0 ≡ ok tt
unfolding publish
publish-ok env run_id kind p s = elim (Option-cases (env.marshal p)) [
  | inl none_ ↦ rw (publish, none_) refl
  | inr (bytes, found) ↦ rw (publish, found) refl
]

publish_completed-ok :
    (env : Env) (v : Verification) (g : Result Graph) (s : System)
    → (publish_completed env v g s).0 ≡ ok tt
unfolding publish_completed pure
publish_completed-ok env v (ok g) s =
    publish-ok env g.run.id "verification.completed" (Payload.verification v) s
publish_completed-ok env v (err e) s = refl

announce-ok : (env : Env) (v : Verification) (s : System) → (announce env v s).0 ≡ ok tt
unfolding announce
announce-ok env v s = publish_completed-ok env v (get_graph_by_decision v.decision_id s.repo) s

announce-pure :
    (env : Env) (v : Verification) (s : System) → ((announce env v >> pure v) s).0 ≡ ok v
unfolding ◌>>=◌
announce-pure env v s = rw (announce-ok env v s) refl

publish-repo :
    (env : Env) (run_id kind : String) (p : Payload) (s : System)
    → (publish env run_id kind p s).1.repo ≡ s.repo
unfolding publish
publish-repo env run_id kind p s = elim (Option-cases (env.marshal p)) [
  | inl none_ ↦ rw (publish, none_) refl
  | inr (bytes, found) ↦ rw (publish, found) refl
]

publish_completed-repo :
    (env : Env) (v : Verification) (g : Result Graph) (s : System)
    → (publish_completed env v g s).1.repo ≡ s.repo
unfolding publish_completed pure
publish_completed-repo env v (ok g) s =
    publish-repo env g.run.id "verification.completed" (Payload.verification v) s
publish_completed-repo env v (err e) s = refl

announce-repo : (env : Env) (v : Verification) (s : System) → (announce env v s).1.repo ≡ s.repo
unfolding announce
announce-repo env v s = publish_completed-repo env v (get_graph_by_decision v.decision_id s.repo) s

write_verification-stored :
    (v : Verification) (m : Memory) → lookup v.id (write_verification v m).verifications ≡ some v
unfolding write_verification apply_passed apply_failed
write_verification-stored v m = ground (arith, lookup-insert_self v.id v m.verifications)

-- The end of the operation, where the verification is stored.
record_result :
    (env : Env) (done old : Verification) (s : System)
    → lookup done.id s.repo.verifications ≡ some old
    → ((repo_call (update_verification done) >> (announce env done >> pure done)) s).0 ≡ ok done
unfolding ◌>>=◌ repo_call update_verification
record_result env done old s there = rw (update_verification, there) (announce-pure env done _)

-- After it the verification is stored.
record_result-stored :
    (env : Env) (id : String) (done old : Verification) (s : System)
    → done.id ≡ id
    → lookup done.id s.repo.verifications ≡ some old
    → lookup id
        ((repo_call (update_verification done) >> (announce env done >> pure done))
          s).1.repo.verifications
      ≡ some done
unfolding ◌>>=◌ repo_call update_verification pure
record_result-stored env id done old s same there =
    rw (update_verification, there, announce-ok env done _, announce-repo env done _)
      (subst (λ k. lookup k (write_verification done s.repo).verifications ≡ some done) same
        (write_verification-stored done s.repo))

-- The verification that a request with its own result leaves.
abbrev pub result_of : Env → Verification → ExecuteVerificationInput → System → Verification
result_of env v input s = record v {
  approved = true;
  approved_by = or_default input.approved_by "human-reviewer";
  environment = or_default input.environment v.environment;
  outcome = input.outcome;
  artifact = input.artifact;
  artifact_hash = env.sha256_hex input.artifact;
  status = "completed";
  executed_at = some (env.now s.readings);
}

-- A request with an outcome and a non-empty artifact, for a stored verification that is not
-- completed, in the sandbox or in staging, with the approval where it is required, succeeds. It
-- answers with the verification with status "completed", approved by the given name or by
-- "human-reviewer", with this outcome and artifact, the artifact's hash, the environment and the
-- time, and otherwise as it was; and that very verification is then stored.
pub execute_verification_completes :
    (env : Env) (id : String) (input : ExecuteVerificationInput) (s : System) (v : Verification)
    → lookup id s.repo.verifications ≡ some v
    → v.id ≡ id
    → v.status ≢ "completed"
    → (or_default input.environment v.environment == "sandbox"
        || or_default input.environment v.environment == "staging")
      ≡ true
    → (v.requires_approval && not input.approved) ≡ false
    → (input.outcome == "passed" || input.outcome == "failed") ≡ true
    → is_empty input.artifact ≡ false
    → ((execute_verification env id input s).0 ≡ ok (result_of env v input s))
      × (lookup id (execute_verification env id input s).1.repo.verifications
          ≡ some (result_of env v input s))
unfolding execute_verification finish_verification obtain_result ◌>>=◌ repo_read repo_call
    get_verification update_verification read_clock
execute_verification_completes env id input s v found same pending place approved outcome artifact =
    let not_yet : (v.status == "completed") ≡ false = ground (arith, eq_iff v.status "completed") in
    let there : lookup v.id s.repo.verifications ≡ some v =
      subst (λ k. lookup k s.repo.verifications ≡ some v) (sym same) found in
    let own : (input.outcome == "" && is_empty input.artifact) ≡ false = ground arith in
    let after = record s { readings = suc s.readings } in
    rw (found, not_yet, place, approved, own, outcome, artifact)
      (
        record_result env (result_of env v input s) v after there,
        record_result-stored env id (result_of env v input s) v after same there,
      )

-- What a certificate of a graph says: the decision and its run, the gate's verdict, permission and
-- conditions, and what they rest on.
abbrev pub statement_of : Graph → Bool → Time → Proof → Certificate
statement_of g approved now proof = record {
  version = "1.0";
  decision_id = g.decision.id;
  run_id = g.decision.run_id;
  recommendation = g.decision.recommendation;
  verdict = (Policy.evaluate g approved).verdict;
  action_allowed = (Policy.evaluate g approved).action_allowed;
  human_approved = approved;
  conditions = (Policy.evaluate g approved).conditions;
  policy_version = g.decision.policy_version;
  artifact_hashes = artifact_hashes g;
  claims = g.claims;
  verifications = g.verifications;
  issued_at = now;
  proof = proof;
}

abbrev pub sha_256 : String → Proof
sha_256 digest = record { algorithm = "SHA-256"; digest = digest }

publish-pure :
    (env : Env) (run_id kind : String) (p : Payload) (c : Certificate) (s : System)
    → ((publish env run_id kind p >> pure c) s).0 ≡ ok c
unfolding ◌>>=◌
publish-pure env run_id kind p c s = rw (publish-ok env run_id kind p s) refl

digest_of :
    (env : Env) (g : Graph) (approved : Bool) (now : Time) (bytes : RawMessage)
    → env.marshal_certificate (statement_of g approved now no_proof) ≡ some bytes
    → certificate_digest env (statement_of g approved now no_proof) ≡ ok (env.sha256_hex bytes)
unfolding certificate_digest
digest_of env g approved now bytes encoded = rw (certificate_digest, encoded) refl

save_publish :
    (env : Env) (run_id kind : String) (p : Payload) (c : Certificate) (s : System)
    → ((repo_call (save_certificate c) >> (publish env run_id kind p >> pure c)) s).0 ≡ ok c
unfolding ◌>>=◌ repo_call save_certificate
save_publish env run_id kind p c s =
    elim (Option-cases (lookup c.decision_id s.repo.certificates)) [
      | inl new ↦ rw (save_certificate, new) (publish-pure env run_id kind p c _)
      | inr (old, there) ↦ rw (save_certificate, there) (publish-pure env run_id kind p c _)
    ]

save_publish-stored :
    (env : Env) (run_id kind : String) (p : Payload) (c : Certificate) (s : System)
    → lookup c.decision_id s.repo.certificates ≡ none
    → lookup c.decision_id
        ((repo_call (save_certificate c) >> (publish env run_id kind p >> pure c))
          s).1.repo.certificates
      ≡ some c
unfolding ◌>>=◌ repo_call save_certificate pure
save_publish-stored env run_id kind p c s new =
    rw (save_certificate, new, publish-ok env run_id kind p _, publish-repo env run_id kind p _)
      (lookup-insert_self c.decision_id c s.repo.certificates)

-- A decision that is stored with its graph, under its own identifier, and that has no certificate
-- yet, is evaluated to a certificate if JSON can be made of it. The certificate names the decision
-- and its run, has the gate's verdict, permission and conditions for the graph and the given
-- approval, records the approval, the claims, the verifications, the hashes and the time, and proves
-- this with the SHA-256 digest of its JSON without the proof. It is then the stored one.
pub evaluate_issues :
    (env : Env) (approved : Bool) (s : System) (g : Graph) (d : Decision) (bytes : RawMessage)
    → lookup g.decision.id s.repo.certificates ≡ none
    → get_graph_by_decision g.decision.id s.repo ≡ ok g
    → lookup g.decision.id s.repo.decisions ≡ some d
    → env.marshal_certificate (statement_of g approved (env.now s.readings) no_proof) ≡ some bytes
    → ((evaluate env g.decision.id approved s).0
        ≡ ok (statement_of g approved (env.now s.readings) (sha_256 (env.sha256_hex bytes))))
      × (lookup g.decision.id (evaluate env g.decision.id approved s).1.repo.certificates
          ≡ some (statement_of g approved (env.now s.readings) (sha_256 (env.sha256_hex bytes))))
unfolding evaluate reuse_or_issue issue get_certificate ◌>>=◌ repo_read repo_call read_clock
    save_decision unsigned_certificate
evaluate_issues env approved s g d bytes fresh graph stored encoded =
    let now = env.now s.readings in
    let digest = digest_of env g approved now bytes encoded in
    rw (fresh, graph, save_decision, stored, digest)
      (save_publish env _ _ _ _ _, save_publish-stored env _ _ _ _ _ fresh)
