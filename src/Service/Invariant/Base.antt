-- ===== src/Service/Invariant/Base.antt =====
-- What the service (internal/service/service.go) promises of the values that it stores, and the
-- property of a repository (internal/store) that it builds on.
use epistemic_engine.Prelude.{
  String, true, false, List, [], ◌≡◌, ◌≢◌, ◌⊎◌, All, any_of, Option-cases, inl, inr,
}
use epistemic_engine.Go.Effect.{Result, ok, Exec}
use epistemic_engine.Go.Keeps.{Keeps}
use epistemic_engine.Go.Numbers.{Time}
use epistemic_engine.Domain.Status.{is_rejected, is_contradicted}
use epistemic_engine.Domain.Portfolio.{Account, Project, AiSystem}
use epistemic_engine.Domain.Connection.{ProjectConnection, ProjectIngest}
use epistemic_engine.Domain.Run.{Event, Run, Decision}
use epistemic_engine.Domain.Claim.{Claim, Verification, Analysis}
use epistemic_engine.Domain.Certificate.{Certificate}
use epistemic_engine.Policy.Laws.{is_critical, is_blocking}
use epistemic_engine.Memory.State.{Memory}
use epistemic_engine.Memory.Runs
use epistemic_engine.Memory.Verifications
use epistemic_engine.Memory.Decisions
use epistemic_engine.Memory.Portfolio
use epistemic_engine.Memory.Connections
use epistemic_engine.Service.System.{
  Env, System, Payload, repo_call, repo_read, ignore, read_clock, new_id, publish,
}
use epistemic_engine.Service.Evaluation.{certificate_digest}

-- The claims of a certificate that allows its action.
pub record ClaimsPass (cs : List Claim) : Type 0 where
  pub some_critical : any_of is_critical cs ≡ true
  pub none_rejected : any_of (λ c. is_rejected c.state) cs ≡ false
  pub none_contradicted : any_of (λ c. is_contradicted c.state) cs ≡ false
  pub none_blocking : any_of is_blocking cs ≡ false

-- A certificate whose proof is the digest of its content, and that allows the action only with
-- human approval and on claims that pass.
pub record IsIssued (env : Env) (c : Certificate) : Type 0 where
  pub algorithm : c.proof.algorithm ≡ "SHA-256"
  pub digest : certificate_digest env c ≡ ok c.proof.digest
  pub approved : c.action_allowed ≡ true → c.human_approved ≡ true
  pub passed : c.action_allowed ≡ true → ClaimsPass c.claims

-- A verification with a result: approved, run in the sandbox or in staging, with an outcome and an
-- artifact that its hash identifies.
pub record IsSettled (env : Env) (v : Verification) : Type 0 where
  pub outcome : (v.outcome ≡ "passed") ⊎ (v.outcome ≡ "failed")
  pub environment : (v.environment ≡ "sandbox") ⊎ (v.environment ≡ "staging")
  pub approved : v.approved ≡ true
  pub artifact : v.artifact ≢ []
  pub hash : v.artifact_hash ≡ env.sha256_hex v.artifact

pub record IsSound (env : Env) (v : Verification) : Type 0 where
  pub settled : v.status ≡ "completed" → IsSettled env v

-- A property of the repository that its methods keep, given values as the service makes them;
-- `Saved` is what holds of the certificates that it saves.
pub record RepoKeeps (env : Env) (P : Memory → Type 0) (Saved : Certificate → Type 0) : Type 0 where
  pub create_run : (r : Run) (d : Decision) → Keeps P (Runs.create_run r d)
  pub add_event : (id : String) (e : Event) → Keeps P (Runs.add_event id e)
  pub save_analysis : (id : String) (a : Analysis) → Keeps P (Runs.save_analysis id a)
  pub save_verifications :
      (vs : List Verification)
      → All (IsSound env) vs
      → Keeps P (Verifications.save_verifications vs)
  pub update_verification :
      (v : Verification) → IsSound env v → Keeps P (Verifications.update_verification v)
  pub save_decision : (d : Decision) → Keeps P (Decisions.save_decision d)
  pub save_certificate : (c : Certificate) → Saved c → Keeps P (Decisions.save_certificate c)
  pub create_account : (a : Account) → Keeps P (Portfolio.create_account a)
  pub create_project : (p : Project) → Keeps P (Portfolio.create_project p)
  pub create_ai_system : (s : AiSystem) → Keeps P (Portfolio.create_ai_system s)
  pub create_project_connection :
      (c : ProjectConnection) → Keeps P (Connections.create_project_connection c)
  pub revoke_project_connection : (id : String) → Keeps P (Connections.revoke_project_connection id)
  pub save_project_ingest :
      (t : Time) (i : ProjectIngest) → Keeps P (Connections.save_project_ingest t i)

-- A property of the system that only looks at the repository.
pub record OnRepo (P : Memory → Type 0) (s : System) : Type 0 where
  pub held : P s.repo

module _ {P : Memory → Type 0} {A : Type 0} where
  pub Keeps-repo_call : (f : Exec Memory A) → Keeps P f → Keeps (OnRepo P) (repo_call f)
  unfolding repo_call
  Keeps-repo_call f k = record { at = λ s h. record { held = k.at s.repo h.held } }

  pub Keeps-repo_read : (f : Memory → Result A) → Keeps (OnRepo P) (repo_read f)
  unfolding repo_read
  Keeps-repo_read f = record { at = λ s h. h }

  pub Keeps-ignore : (f : Exec System A) → Keeps (OnRepo P) f → Keeps (OnRepo P) (ignore f)
  unfolding ignore
  Keeps-ignore f k = record { at = λ s h. k.at s h }

module _ {P : Memory → Type 0} (env : Env) where
  pub Keeps-read_clock : Keeps (OnRepo P) (read_clock env)
  unfolding read_clock
  Keeps-read_clock = record { at = λ s h. record { held = h.held } }

  pub Keeps-new_id : (prefix : String) → Keeps (OnRepo P) (new_id env prefix)
  unfolding new_id
  Keeps-new_id prefix = record { at = λ s h. record { held = h.held } }

  publish-kept :
      (run_id event_type : String) (value : Payload) (s : System)
      → OnRepo P s
      → OnRepo P (publish env run_id event_type value s).1
  unfolding publish
  publish-kept run_id event_type value s h = elim (Option-cases (env.marshal value)) [
    | inl e ↦ rw (e, publish) h
    | inr (bytes, e) ↦ rw (e, publish) (record { held = h.held })
  ]

  pub Keeps-publish :
      (run_id event_type : String) (value : Payload)
      → Keeps (OnRepo P) (publish env run_id event_type value)
  Keeps-publish run_id event_type value = record { at = publish-kept run_id event_type value }

pub ruleset service_rules =
    (Keeps-repo_call, Keeps-repo_read, Keeps-ignore, Keeps-read_clock, Keeps-new_id, Keeps-publish)
