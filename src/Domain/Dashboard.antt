-- ===== src/Domain/Dashboard.antt =====
-- apps/control-plane/internal/domain/portfolio.go: the account dashboard.
use epistemic_engine.Prelude.{ℕ, String, Bool, List, Option}
use epistemic_engine.Go.Numbers.{Time}
use epistemic_engine.Domain.Portfolio.{Account, Project, AiSystem}
use epistemic_engine.Domain.Connection.{ProjectReport, ConnectionSummary}

pub record DashboardMetrics : Type 0 where
  pub projects : ℕ
  pub connected_projects : ℕ
  pub ai_systems : ℕ
  pub reports : ℕ
  pub valid_certificates : ℕ
  pub attention_items : ℕ
  pub knowledge_coverage_pct : ℕ

pub record KnowledgeSummary : Type 0 where
  pub claims : ℕ
  pub supported_claims : ℕ
  pub contradicted_claims : ℕ
  pub evidence_artifacts : ℕ
  pub open_unknowns : ℕ
  pub stale_claims : ℕ

pub record ProjectSummary : Type 0 where
  pub project : Project
  pub runs : ℕ
  pub ai_systems : ℕ
  pub claims : ℕ
  pub supported_claims : ℕ
  pub evidence_artifacts : ℕ
  pub open_unknowns : ℕ
  pub knowledge_coverage_pct : ℕ
  pub certification_status : String
  pub connection_status : String
  pub reports : ℕ
  pub latest_run_id : String
  pub last_activity_at : Option Time

pub record AiSystemSummary : Type 0 where
  pub ai_system : AiSystem
  pub project_name : String
  pub certification_status : String
  pub certificate_digest : String
  pub last_evaluated_at : Option Time

pub record CertificateSummary : Type 0 where
  pub decision_id : String
  pub run_id : String
  pub project_id : String
  pub project_name : String
  pub ai_system_id : String
  pub ai_system_name : String
  pub verdict : String
  pub action_allowed : Bool
  pub policy_version : String
  pub issued_at : Time
  pub digest : String
  pub source : String
  pub received_at : Time

pub record DashboardActivity : Type 0 where
  pub id : String
  pub kind : String
  pub title : String
  pub detail : String
  pub status : String
  pub occurred_at : Time
  pub run_id : String

pub record AccountDashboard : Type 0 where
  pub account : Account
  pub metrics : DashboardMetrics
  pub knowledge : KnowledgeSummary
  pub projects : List ProjectSummary
  pub ai_systems : List AiSystemSummary
  pub connections : List ConnectionSummary
  pub reports : List ProjectReport
  pub certificates : List CertificateSummary
  pub activity : List DashboardActivity
  pub generated_at : Time
