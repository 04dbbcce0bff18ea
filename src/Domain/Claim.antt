-- ===== src/Domain/Claim.antt =====
-- apps/control-plane/internal/domain/model.go: claims with their support, evidence and relations, and what an analyzer finds.
use epistemic_engine.Prelude.{String, Bool, List, [], false, Option}
use epistemic_engine.Go.Numbers.{Float64, float_zero, Time, RawMessage}
use epistemic_engine.Domain.Status.{ClaimState, RelationType}
use epistemic_engine.Domain.Run.{Run, Decision}

pub record SupportScore : Type 0 where
  pub value : Float64
  pub evidence_coverage : Float64
  pub source_quality : Float64
  pub source_independence : Float64
  pub freshness : Float64
  pub scope_match : Float64
  pub direct_verification_strength : Float64
  pub contradiction_burden : Float64
  pub semantics : String

pub record Claim : Type 0 where
  pub id : String
  pub decision_id : String
  pub statement : String
  pub scope : String
  pub critical : Bool
  pub importance : String
  pub required_evidence_types : List String
  pub state : ClaimState
  pub justification : String
  pub support : SupportScore
  pub evidence_ids : List String
  pub created_at : Time

pub record Evidence : Type 0 where
  pub id : String
  pub run_id : String
  pub kind : String
  pub source : String
  pub summary : String
  pub uri : String
  pub content_hash : String
  pub observed_at : Time
  pub raw : RawMessage
  pub metadata : RawMessage

pub record Relation : Type 0 where
  pub id : String
  pub from_id : String
  pub to_id : String
  pub type : RelationType
  pub rationale : String

pub record Assumption : Type 0 where
  pub id : String
  pub decision_id : String
  pub claim_id : String
  pub statement : String
  pub critical : Bool
  pub status : String
  pub impact : String

pub record Unknown : Type 0 where
  pub id : String
  pub decision_id : String
  pub question : String
  pub critical : Bool
  pub resolved : Bool

pub record Verification : Type 0 where
  pub id : String
  pub decision_id : String
  pub claim_id : String
  pub check : String
  pub kind : String
  pub specification : RawMessage
  pub environment : String
  pub status : String
  pub requires_approval : Bool
  pub approved : Bool
  pub approved_by : String
  pub outcome : String
  pub artifact : RawMessage
  pub artifact_hash : String
  pub created_at : Time
  pub executed_at : Option Time

pub record Graph : Type 0 where
  pub run : Run
  pub decision : Decision
  pub claims : List Claim
  pub evidence : List Evidence
  pub relations : List Relation
  pub assumptions : List Assumption
  pub unknowns : List Unknown
  pub verifications : List Verification

pub record Analysis : Type 0 where
  pub claims : List Claim
  pub evidence : List Evidence
  pub relations : List Relation
  pub assumptions : List Assumption
  pub unknowns : List Unknown

abbrev pub zero_support : SupportScore
zero_support = record {
  value = float_zero;
  evidence_coverage = float_zero;
  source_quality = float_zero;
  source_independence = float_zero;
  freshness = float_zero;
  scope_match = float_zero;
  direct_verification_strength = float_zero;
  contradiction_burden = float_zero;
  semantics = "";
}

-- The zero value, which a missing map entry reads as.
abbrev pub zero_claim : Claim
zero_claim = record {
  id = "";
  decision_id = "";
  statement = "";
  scope = "";
  critical = false;
  importance = "";
  required_evidence_types = [];
  state = ClaimState.unlisted "";
  justification = "";
  support = zero_support;
  evidence_ids = [];
  created_at = 0;
}
