-- ===== src/Domain/Run.antt =====
-- apps/control-plane/internal/domain/model.go: a run with its events, the decision that it asks for, and lifecycle events.
use epistemic_engine.Prelude.{String, Bool, List, [], false, Option, none}
use epistemic_engine.Go.Numbers.{ℤ, Time, RawMessage}
use epistemic_engine.Domain.Status.{RunStatus, Verdict}

pub record Event : Type 0 where
  pub id : String
  pub external_id : String
  pub sequence : ℤ
  pub type : String
  pub source : String
  pub correlation_id : String
  pub occurred_at : Time
  pub payload : RawMessage

pub record Run : Type 0 where
  pub id : String
  pub account_id : String
  pub project_id : String
  pub ai_system_id : String
  pub external_trace_id : String
  pub title : String
  pub goal : String
  pub source : String
  pub recommendation : String
  pub status : RunStatus
  pub decision_id : String
  pub events : List Event
  pub raw : RawMessage
  pub created_at : Time

pub record Decision : Type 0 where
  pub id : String
  pub run_id : String
  pub recommendation : String
  pub action_type : String
  pub subject : String
  pub risk_level : String
  pub policy_version : String
  pub verdict : Verdict
  pub action_allowed : Bool
  pub human_approved : Bool
  pub conditions : List String
  pub claim_ids : List String
  pub created_at : Time
  pub evaluated_at : Option Time

pub record LifecycleEvent : Type 0 where
  pub run_id : String
  pub type : String
  pub payload : RawMessage
  pub occurred_at : Time

-- The zero values, which a missing map entry reads as.
abbrev pub zero_run : Run
zero_run = record {
  id = "";
  account_id = "";
  project_id = "";
  ai_system_id = "";
  external_trace_id = "";
  title = "";
  goal = "";
  source = "";
  recommendation = "";
  status = RunStatus.unlisted "";
  decision_id = "";
  events = [];
  raw = [];
  created_at = 0;
}

abbrev pub zero_decision : Decision
zero_decision = record {
  id = "";
  run_id = "";
  recommendation = "";
  action_type = "";
  subject = "";
  risk_level = "";
  policy_version = "";
  verdict = Verdict.unlisted "";
  action_allowed = false;
  human_approved = false;
  conditions = [];
  claim_ids = [];
  created_at = 0;
  evaluated_at = none;
}
