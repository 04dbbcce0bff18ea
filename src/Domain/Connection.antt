-- ===== src/Domain/Connection.antt =====
-- apps/control-plane/internal/domain/integration.go: connections of projects, the reports and certificates that they send.
use epistemic_engine.Prelude.{ℕ, String, Bool, List, Option}
use epistemic_engine.Go.Numbers.{ℤ, Time, RawMessage}

pub record ProjectConnection : Type 0 where
  pub id : String
  pub account_id : String
  pub project_id : String
  pub provider : String
  pub repository : String
  pub status : String
  pub token_hash : String
  pub token_prefix : String
  pub created_at : Time
  pub last_seen_at : Option Time

pub record ProjectReport : Type 0 where
  pub id : String
  pub external_id : String
  pub account_id : String
  pub project_id : String
  pub connection_id : String
  pub ai_system_id : String
  pub tool : String
  pub status : String
  pub exit_code : ℤ
  pub summary : String
  pub repository : String
  pub commit_sha : String
  pub branch : String
  pub workflow : String
  pub run_url : String
  pub details : RawMessage
  pub received_at : Time

pub record PublishedCertificate : Type 0 where
  pub id : String
  pub external_id : String
  pub account_id : String
  pub project_id : String
  pub connection_id : String
  pub ai_system_id : String
  pub decision_id : String
  pub run_id : String
  pub status : String
  pub action_allowed : Bool
  pub policy_version : String
  pub digest : String
  pub artifact_hashes : List String
  pub issued_at : Time
  pub received_at : Time
  pub raw : RawMessage

pub record ProjectIngest : Type 0 where
  pub connection : ProjectConnection
  pub report : Option ProjectReport
  pub certificate : Option PublishedCertificate

pub record ConnectionSummary : Type 0 where
  pub project_connection : ProjectConnection
  pub project_name : String
  pub reports : ℕ
