-- ===== src/Domain/Report.antt =====
-- apps/control-plane/internal/domain/certificate_report.go: the report on a certificate for human readers.
use epistemic_engine.Prelude.{ℕ, String, Bool, List}
use epistemic_engine.Go.Numbers.{Time}
use epistemic_engine.Domain.Certificate.{Proof}

pub record CertificateReportCounts : Type 0 where
  pub critical_claims : ℕ
  pub supported_claims : ℕ
  pub contradicted_claims : ℕ
  pub open_claims : ℕ
  pub verification_checks : ℕ
  pub passed_verifications : ℕ
  pub evidence_artifacts : ℕ

pub record CertificateReportClaim : Type 0 where
  pub statement : String
  pub state : String
  pub assessment : String
  pub support_percent : ℕ
  pub evidence_count : ℕ
  pub required : List String

pub record CertificateReportVerification : Type 0 where
  pub check : String
  pub kind : String
  pub outcome : String
  pub environment : String
  pub approved_by : String
  pub artifact_hash : String

pub record HumanCertificateReport : Type 0 where
  pub version : String
  pub decision_id : String
  pub run_id : String
  pub decision : String
  pub headline : String
  pub summary : String
  pub recommendation : String
  pub verdict : String
  pub action_allowed : Bool
  pub human_approval_required : Bool
  pub human_approval_granted : Bool
  pub policy_version : String
  pub issued_at : Time
  pub counts : CertificateReportCounts
  pub critical_claims : List CertificateReportClaim
  pub conditions : List String
  pub verifications : List CertificateReportVerification
  pub proof : Proof
  pub markdown : String
