-- ===== src/Service/Execution.antt =====
-- apps/control-plane/internal/service/service.go: `ExecuteVerification`.
use epistemic_engine.Prelude.{
  String, Bool, true, not, some, ◌&&◌, ◌||◌, ◌==◌, is_empty, if◌then◌else◌,
}
use epistemic_engine.Go.Effect.{
  invalid, conflict, Result, ok, err, Exec, ◌>>=◌, ◌>>◌, pure, guard, lift,
}
use epistemic_engine.Go.Numbers.{Time, RawMessage}
use epistemic_engine.Go.Text.{or_default}
use epistemic_engine.Domain.Claim.{Verification, Graph}
use epistemic_engine.Memory.Graph.{get_graph_by_decision}
use epistemic_engine.Memory.Verifications.{get_verification, update_verification}
use epistemic_engine.Service.System.{
  Env, System, Outcome, Payload, repo_call, repo_read, ignore, read_clock, publish,
}

pub record ExecuteVerificationInput : Type 0 where
  pub environment : String
  pub outcome : String
  pub artifact : RawMessage
  pub approved : Bool
  pub approved_by : String

abbrev pub approved_by : Verification → ExecuteVerificationInput → Verification
approved_by v input = record v {
  approved = true;
  approved_by = or_default input.approved_by "human-reviewer";
}

-- `v.Status = "running"`
abbrev pub running : Verification → Verification
running v = record v { status = "running" }

abbrev pub completed : Verification → String → Outcome → String → Time → Verification
completed v environment result hash now = record v {
  environment = environment;
  outcome = result.outcome;
  artifact = result.artifact;
  artifact_hash = hash;
  status = "completed";
  executed_at = some now;
}

module _ (env : Env) where
  -- `if in.Outcome == "" && len(in.Artifact) == 0 { ... }`: the runner's result in place of the
  -- submitted one. The status that this branch sets on the code's copy of `v` is set again below.
  unfoldable pub obtain_result : Verification → ExecuteVerificationInput → Exec System Outcome
  obtain_result v input =
      if input.outcome == "" && is_empty input.artifact
      then (do ignore (repo_call (update_verification (running v))); lift (env.execute (running v)))
      else pure (record { outcome = input.outcome; artifact = input.artifact })

  unfoldable pub publish_completed : Verification → Result Graph → Exec System (Unit {0})
  publish_completed v (ok g) =
      publish env g.run.id "verification.completed" (Payload.verification v)
  publish_completed v (err e) = pure tt

  -- `g, graphErr := s.repo.GetGraphByDecision(...)`, whose error is dropped.
  unfoldable pub announce : Verification → Exec System (Unit {0})
  announce v s = publish_completed v (get_graph_by_decision v.decision_id s.repo) s

  -- Behind the checks of the request.
  unfoldable pub finish_verification :
      Verification → String → ExecuteVerificationInput → Exec System Verification
  finish_verification v environment input = do
    result ← obtain_result v input
    guard (result.outcome == "passed" || result.outcome == "failed")
        (invalid "outcome must be passed or failed")
    guard (not (is_empty result.artifact)) (invalid "a verification artifact is required")
    now ← read_clock env
    let done = completed v environment result (env.sha256_hex result.artifact) now
    repo_call (update_verification done)
    announce done
    pure done

  unfoldable pub execute_verification : String → ExecuteVerificationInput → Exec System Verification
  execute_verification id input = do
    v ← repo_read (get_verification id)
    guard (not (v.status == "completed")) (conflict "verification result is immutable")
    let environment = or_default input.environment v.environment
    guard (environment == "sandbox" || environment == "staging")
        (invalid "verification environment must be sandbox or staging")
    guard (not (v.requires_approval && not input.approved))
        (invalid "explicit human approval is required before verification execution")
    finish_verification (approved_by v input) environment input
