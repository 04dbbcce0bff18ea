-- ===== src/Service/Invariant/Outcomes.antt =====
-- `Plan`, `ExecuteVerification` and `Evaluate` of apps/control-plane/internal/service/service.go
-- store only verifications and certificates that are sound, and so keep what the repository keeps.
use epistemic_engine.Prelude.{
  String, Bool, true, List, [], ◌∷◌, ◌||◌, ◌==◌, not, ◌≡◌, ◌≢◌, sym, ◌∙◌, ◌⊎◌, refl, All, arith,
  eq_iff, is_empty,
}
use epistemic_engine.Go.Effect.{Result, ok, err}
use epistemic_engine.Go.Keeps.{
  Keeps, Ensures, Ensures-guard, Ensures-lift, Ensures-pure, Ensures-bind, Keeps-Ensures,
  Keeps-bind, Keeps-bind_ensured, Keeps-lift, Keeps-pure, Keeps-guard, Keeps-if, Ensures-if,
}
use epistemic_engine.Go.Numbers.{Time, RawMessage}
use epistemic_engine.Domain.Claim.{Claim, Verification, Graph}
use epistemic_engine.Domain.Certificate.{Certificate}
use epistemic_engine.Memory.State.{Memory}
use epistemic_engine.Memory.Graph.{get_graph_by_decision}
use epistemic_engine.Memory.Decisions.{get_certificate}
use epistemic_engine.Policy
use epistemic_engine.Policy.Laws.{action_allowed-evaluate_iff}
use epistemic_engine.Service.System.{Env, Outcome}
use epistemic_engine.Service.Planning.{Specification, plan_claim, plan_claims, save_plan, plan}
use epistemic_engine.Service.Execution.{
  ExecuteVerificationInput, running, completed, obtain_result, publish_completed, announce,
  finish_verification, execute_verification,
}
use epistemic_engine.Service.Evaluation.{
  decided, unsigned_certificate, signed, certificate_digest, issue, reuse_or_issue, evaluate,
}
use epistemic_engine.Service.Invariant.Base.{
  RepoKeeps, OnRepo, IsIssued, IsSound, Keeps-repo_call, Keeps-repo_read, Keeps-ignore,
  Keeps-read_clock, Keeps-new_id, Keeps-publish,
}

planned-ne-completed : ◌≢◌ {A = String} "planned" "completed"
planned-ne-completed = ground (arith, eq_iff "planned" "completed")

running-ne-completed : ◌≢◌ {A = String} "running" "completed"
running-ne-completed = ground (arith, eq_iff "running" "completed")

planned-IsSound : (env : Env) (v : Verification) → v.status ≡ "planned" → IsSound env v
planned-IsSound env v h = record { settled = λ e. absurd (planned-ne-completed (sym h ∙ e)) }

running-IsSound : (env : Env) (v : Verification) → IsSound env (running v)
running-IsSound env v = record { settled = λ e. absurd (running-ne-completed e) }

either_text : (x a b : String) → (x == a || x == b) ≡ true → (x ≡ a) ⊎ (x ≡ b)
either_text x a b h = ground (arith, eq_iff x a, eq_iff x b)

not_empty : (xs : RawMessage) → not (is_empty xs) ≡ true → xs ≢ []
not_empty [] h = cc
not_empty (x ∷ xs) h = λ e. cc

completed-IsSound :
    (env : Env) (v : Verification) (environment : String) (result : Outcome) (now : Time)
    → v.approved ≡ true
    → (environment == "sandbox" || environment == "staging") ≡ true
    → (result.outcome == "passed" || result.outcome == "failed") ≡ true
    → not (is_empty result.artifact) ≡ true
    → IsSound env (completed v environment result (env.sha256_hex result.artifact) now)
completed-IsSound env v environment result now approved place outcome artifact = record {
  settled = λ e. record {
    outcome = either_text result.outcome "passed" "failed" outcome;
    environment = either_text environment "sandbox" "staging" place;
    approved = approved;
    artifact = not_empty result.artifact artifact;
    hash = refl;
  };
}

module _ (env : Env) {P : Memory → Type 0} (json : Specification → RawMessage) where
  plan_claim-IsSound :
      (decision_id : String) (c : Claim)
      → Ensures (OnRepo P) (plan_claim env json decision_id c) (IsSound env)
  unfolding plan_claim
  plan_claim-IsSound decision_id c =
      Ensures-bind _ _ _ _ (Keeps-Ensures _ (Keeps-new_id env "ver")) (λ id _.
        Ensures-bind _ _ _ _ (Keeps-Ensures _ (Keeps-read_clock env))
          (λ now _. Ensures-pure _ _ (planned-IsSound env _ refl)))

  plan_claims-IsSound :
      (decision_id : String) (cs : List Claim)
      → Ensures (OnRepo P) (plan_claims env json decision_id cs) (All (IsSound env))
  unfolding plan_claims
  plan_claims-IsSound decision_id [] = Ensures-pure _ _ tt
  plan_claims-IsSound decision_id (c ∷ cs) =
      Ensures-if _ _ _ _ (plan_claims-IsSound decision_id cs) (
        Ensures-bind _ _ _ _ (plan_claim-IsSound decision_id c) (λ v sound.
          Ensures-bind _ _ _ _ (plan_claims-IsSound decision_id cs)
            (λ vs rest. Ensures-pure _ _ (sound, rest))))

module _ (env : Env) {P : Memory → Type 0} {Saved : Certificate → Type 0}
    (repo : RepoKeeps env P Saved) (json : Specification → RawMessage) where
  save_plan-keeps :
      (run_id : String) (vs : List Verification)
      → All (IsSound env) vs
      → Keeps (OnRepo P) (save_plan env json run_id vs)
  unfolding save_plan
  save_plan-keeps run_id [] h = Keeps-pure []
  save_plan-keeps run_id (v ∷ vs) h =
      Keeps-bind _ _ (Keeps-repo_call _ (repo.save_verifications (v ∷ vs) h))
        (λ u. Keeps-bind _ _ (Keeps-publish env _ _ _) (λ u. Keeps-pure _))

  pub plan-keeps : (decision_id : String) → Keeps (OnRepo P) (plan env json decision_id)
  unfolding plan
  plan-keeps decision_id = Keeps-bind _ _ (Keeps-repo_read _) (λ g. Keeps-if _ _ _ (Keeps-pure _) (
      Keeps-bind_ensured _ _ _ (plan_claims-IsSound env json decision_id g.claims)
        (save_plan-keeps g.run.id)))

module _ (env : Env) {P : Memory → Type 0} {Saved : Certificate → Type 0}
    (repo : RepoKeeps env P Saved) where
  obtain_result-keeps :
      (v : Verification) (input : ExecuteVerificationInput)
      → Keeps (OnRepo P) (obtain_result env v input)
  unfolding obtain_result
  obtain_result-keeps v input =
      Keeps-if _ _ _
        (Keeps-bind _ _
          (Keeps-ignore _ (Keeps-repo_call _ (repo.update_verification _ (running-IsSound env v))))
          (λ u. Keeps-lift _))
        (Keeps-pure _)

  publish_completed-keeps :
      (v : Verification) (r : Result Graph) → Keeps (OnRepo P) (publish_completed env v r)
  unfolding publish_completed
  publish_completed-keeps v (ok g) = Keeps-publish env _ _ _
  publish_completed-keeps v (err e) = Keeps-pure tt

  announce-keeps : (v : Verification) → Keeps (OnRepo P) (announce env v)
  unfolding announce
  announce-keeps v = record {
    at = λ s h. (publish_completed-keeps v (get_graph_by_decision v.decision_id s.repo)).at s h;
  }

  finish_verification-keeps :
      (v : Verification) (environment : String) (input : ExecuteVerificationInput)
      → v.approved ≡ true
      → (environment == "sandbox" || environment == "staging") ≡ true
      → Keeps (OnRepo P) (finish_verification env v environment input)
  unfolding finish_verification
  finish_verification-keeps v environment input approved place =
      Keeps-bind _ _ (obtain_result-keeps v input) (λ result.
        Keeps-bind_ensured _ _ _ (Ensures-guard _ _) (λ u outcome.
          Keeps-bind_ensured _ _ _ (Ensures-guard _ _) (λ u artifact.
            Keeps-bind _ _ (Keeps-read_clock env) (λ now.
              Keeps-bind _ _
                (Keeps-repo_call _ (
                  repo.update_verification _ (
                    completed-IsSound env v environment result now approved place outcome
                      artifact)))
                (λ u. Keeps-bind _ _ (announce-keeps _) (λ u. Keeps-pure _))))))

  pub execute_verification-keeps :
      (id : String) (input : ExecuteVerificationInput)
      → Keeps (OnRepo P) (execute_verification env id input)
  unfolding execute_verification
  execute_verification-keeps id input = Keeps-bind _ _ (Keeps-repo_read _) (λ v.
      Keeps-bind _ _ (Keeps-guard _ _) (λ u.
        Keeps-bind_ensured _ _ _ (Ensures-guard _ _) (λ u place.
          Keeps-bind _ _ (Keeps-guard _ _) (λ u. finish_verification-keeps _ _ input refl place))))

pub issued-IsIssued :
    (env : Env) (g : Graph) (human_approved : Bool) (now : Time) (digest : String)
    → let d = decided g.decision (Policy.evaluate g human_approved) human_approved now in
      let unsigned = unsigned_certificate g d now in
      certificate_digest env unsigned ≡ ok digest → IsIssued env (signed unsigned digest)
unfolding unsigned_certificate certificate_digest
issued-IsIssued env g human_approved now digest e = record {
  algorithm = refl;
  digest = e;
  approved = λ a. ((action_allowed-evaluate_iff g human_approved).0 a).0;
  passed = λ a.
      let p = ((action_allowed-evaluate_iff g human_approved).0 a).1 in
      record {
        some_critical = p.some_critical;
        none_rejected = p.none_rejected;
        none_contradicted = p.none_contradicted;
        none_blocking = p.none_blocking;
      };
}

-- `Saved` holds of every certificate that is issued with this approval.
pub record Covers (env : Env) (human_approved : Bool) (Saved : Certificate → Type 0) : Type 0 where
  pub saved :
      (g : Graph) (now : Time) (digest : String)
      → let d = decided g.decision (Policy.evaluate g human_approved) human_approved now in
        let unsigned = unsigned_certificate g d now in
        certificate_digest env unsigned ≡ ok digest → Saved (signed unsigned digest)

pub Covers-IsIssued : (env : Env) (human_approved : Bool) → Covers env human_approved (IsIssued env)
Covers-IsIssued env human_approved = record {
  saved = λ g now digest e. issued-IsIssued env g human_approved now digest e;
}

module _ (env : Env) {P : Memory → Type 0} {Saved : Certificate → Type 0}
    (repo : RepoKeeps env P Saved) (decision_id : String) (human_approved : Bool)
    (covers : Covers env human_approved Saved) where
  issue-keeps : Keeps (OnRepo P) (issue env decision_id human_approved)
  unfolding issue
  issue-keeps = Keeps-bind _ _ (Keeps-repo_read _) (λ g.
      Keeps-bind _ _ (Keeps-read_clock env) (λ now.
        Keeps-bind _ _ (Keeps-repo_call _ (repo.save_decision _)) (λ u.
          Keeps-bind_ensured _ _ _ (Ensures-lift _) (λ digest e.
            Keeps-bind _ _
              (Keeps-repo_call _ (repo.save_certificate _ (covers.saved g now digest e)))
              (λ u. Keeps-bind _ _ (Keeps-publish env _ _ _) (λ u. Keeps-pure _))))))

  reuse_or_issue-keeps :
      (r : Result Certificate) → Keeps (OnRepo P) (reuse_or_issue env decision_id human_approved r)
  unfolding reuse_or_issue
  reuse_or_issue-keeps (ok c) = Keeps-pure c
  reuse_or_issue-keeps (err e) = issue-keeps

  pub evaluate-keeps : Keeps (OnRepo P) (evaluate env decision_id human_approved)
  unfolding evaluate
  evaluate-keeps = record {
    at = λ s h. (reuse_or_issue-keeps (get_certificate decision_id s.repo)).at s h;
  }
