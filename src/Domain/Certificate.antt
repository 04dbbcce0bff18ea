-- ===== src/Domain/Certificate.antt =====
-- apps/control-plane/internal/domain/model.go: the decision certificate and its proof.
use epistemic_engine.Prelude.{String, Bool, List}
use epistemic_engine.Go.Numbers.{Time}
use epistemic_engine.Domain.Status.{Verdict}
use epistemic_engine.Domain.Claim.{Claim, Verification}

pub record Proof : Type 0 where
  pub algorithm : String
  pub digest : String

pub record Certificate : Type 0 where
  pub version : String
  pub decision_id : String
  pub run_id : String
  pub recommendation : String
  pub verdict : Verdict
  pub action_allowed : Bool
  pub human_approved : Bool
  pub conditions : List String
  pub policy_version : String
  pub artifact_hashes : List String
  pub claims : List Claim
  pub verifications : List Verification
  pub issued_at : Time
  pub proof : Proof
