-- ===== src/Service/Runs.antt =====
-- apps/control-plane/internal/service/service.go: `CreateRun`, `AddEvent`.
use epistemic_engine.Prelude.{
  String, Bool, true, false, not, [], ◌&&◌, ◌||◌, ◌==◌, is_empty, if◌then◌else◌, none,
}
use epistemic_engine.Go.Effect.{invalid, Exec, ◌>>=◌, ◌>>◌, pure, guard}
use epistemic_engine.Go.Numbers.{ℤ, Time, time_is_zero, RawMessage}
use epistemic_engine.Go.Text.{is_blank, or_default}
use epistemic_engine.Domain.Status.{RunStatus, Verdict}
use epistemic_engine.Domain.Run.{Event, Run, Decision}
use epistemic_engine.Policy
use epistemic_engine.Memory.Runs as Repo
use epistemic_engine.Memory.Portfolio.{get_project, get_account, get_ai_system}
use epistemic_engine.Service.System.{
  Env, System, Payload, repo_call, repo_read, read_clock, new_id, publish,
}

pub record CreateRunInput : Type 0 where
  pub account_id : String
  pub project_id : String
  pub ai_system_id : String
  pub external_trace_id : String
  pub title : String
  pub goal : String
  pub source : String
  pub recommendation : String
  pub action_type : String
  pub subject : String
  pub risk_level : String
  pub raw : RawMessage

-- The assignments under `if in.Title == ""` and its likes.
abbrev pub with_defaults : CreateRunInput → CreateRunInput
with_defaults input =
    let title = or_default input.title "Deployment readiness review" in
    record input {
      title = title;
      source = or_default input.source "api";
      goal =
          or_default input.goal
            "Determine whether the proposed change is sufficiently verified to deploy.";
      action_type = or_default input.action_type "software_deployment";
      subject = or_default input.subject title;
      risk_level = or_default input.risk_level "high";
    }

-- `if in.ProjectID != "" { ... }`: the account that the run belongs to.
unfoldable pub owning_account : CreateRunInput → Exec System String
owning_account input = if input.project_id == "" then pure input.account_id else do
  project ← repo_read (get_project input.project_id)
  guard (input.account_id == "" || input.account_id == project.account_id)
      (invalid "project does not belong to account")
  pure project.account_id

-- `if in.AccountID != "" { ... }`
unfoldable pub check_account : String → Exec System (Unit {0})
check_account account_id =
    if account_id == "" then pure tt else do account ← repo_read (get_account account_id); pure tt

-- `if in.AISystemID != "" { ... }`
unfoldable pub check_ai_system : CreateRunInput → Exec System (Unit {0})
check_ai_system input = if input.ai_system_id == "" then pure tt else do
  system ← repo_read (get_ai_system input.ai_system_id)
  guard (not (input.project_id == "") && system.project_id == input.project_id)
      (invalid "AI system does not belong to project")

abbrev pub run_of : CreateRunInput → String → String → String → Time → Run
run_of input account_id run_id decision_id now = record {
  id = run_id;
  account_id = account_id;
  project_id = input.project_id;
  ai_system_id = input.ai_system_id;
  external_trace_id = input.external_trace_id;
  title = input.title;
  goal = input.goal;
  source = input.source;
  recommendation = input.recommendation;
  status = RunStatus.ingesting;
  decision_id = decision_id;
  events = [];
  raw = input.raw;
  created_at = now;
}

abbrev pub decision_of : CreateRunInput → String → String → Time → Decision
decision_of input run_id decision_id now = record {
  id = decision_id;
  run_id = run_id;
  recommendation = input.recommendation;
  action_type = input.action_type;
  subject = input.subject;
  risk_level = input.risk_level;
  policy_version = Policy.version;
  verdict = Verdict.unlisted "";
  action_allowed = false;
  human_approved = false;
  conditions = [];
  claim_ids = [];
  created_at = now;
  evaluated_at = none;
}

pub record AddEventInput : Type 0 where
  pub external_id : String
  pub sequence : ℤ
  pub type : String
  pub source : String
  pub correlation_id : String
  pub occurred_at : Time
  pub payload : RawMessage

module _ (env : Env) where
  unfoldable pub create_run : CreateRunInput → Exec System Run
  create_run input = do
    guard (not (is_blank input.recommendation)) (invalid "recommendation is required")
    now ← read_clock env
    run_id ← new_id env "run"
    decision_id ← new_id env "dec"
    let filled = with_defaults input
    account_id ← owning_account filled
    check_account account_id
    check_ai_system filled
    let run = run_of filled account_id run_id decision_id now
    repo_call (Repo.create_run run (decision_of filled run_id decision_id now))
    publish env run_id "run.created" (Payload.run run)
    pure run

  -- `if in.OccurredAt.IsZero() { in.OccurredAt = s.now() }`
  unfoldable pub occurred : AddEventInput → Exec System Time
  occurred input = if time_is_zero input.occurred_at then read_clock env else pure input.occurred_at

  abbrev pub event_of : AddEventInput → String → Time → Event
  event_of input id at = record {
    id = id;
    external_id = input.external_id;
    sequence = input.sequence;
    type = input.type;
    source = or_default input.source "agent";
    correlation_id = input.correlation_id;
    occurred_at = at;
    payload = input.payload;
  }

  unfoldable pub publish_if : Bool → String → Event → Exec System (Unit {0})
  publish_if true run_id e = publish env run_id "run.event.appended" (Payload.event e)
  publish_if false run_id e = pure tt

  unfoldable pub add_event : String → AddEventInput → Exec System Event
  add_event run_id input = do
    guard (not (input.type == "") && not (is_empty input.payload))
        (invalid "type and payload are required")
    at ← occurred input
    id ← new_id env "evt"
    stored ← repo_call (Repo.add_event run_id (event_of input id at))
    publish_if stored.1 run_id stored.0
    pure stored.0
