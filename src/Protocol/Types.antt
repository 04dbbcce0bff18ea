-- ===== src/Protocol/Types.antt =====
-- api/go/types.go: the records of the vendor-neutral protocol. A map of extensions is an association
-- list; `data`, a reserved word, is `payload`.
use epistemic_engine.Prelude.{String, Bool, List, Option}
use epistemic_engine.Go.Map.{Map}
use epistemic_engine.Go.Numbers.{ℤ, Time, RawMessage}

abbrev pub protocol_version : String
protocol_version = "0.1"

pub record Source : Type 0 where
  pub name : String
  pub version : String
  pub instance : String

pub record Subject : Type 0 where
  pub type : String
  pub id : String

pub record Context : Type 0 where
  pub decision_id : String
  pub run_id : String
  pub correlation : String
  pub parent_id : String

pub record Ordering : Type 0 where
  pub sequence : ℤ
  pub partition : String

pub record Event : Type 0 where
  pub spec_version : String
  pub id : String
  pub type : String
  pub source : Source
  pub subject : Subject
  pub time : Time
  pub context : Context
  pub ordering : Ordering
  pub idempotency_key : String
  pub payload : RawMessage
  pub extensions : Map RawMessage
  pub unknown : Map RawMessage

pub record Action : Type 0 where
  pub type : String
  pub subject : Subject
  pub risk_level : String

pub record Requirement : Type 0 where
  pub id : String
  pub description : String
  pub critical : Bool
  pub evidence_types : List String

pub record Approval : Type 0 where
  pub approved : Bool
  pub actor : String
  pub time : String

pub record DecisionRequest : Type 0 where
  pub spec_version : String
  pub decision_id : String
  pub recommendation : String
  pub action : Action
  pub context : Context
  pub mode : String
  pub requirements : List Requirement
  pub events : List Event
  pub approval : Approval
  pub metadata : Map RawMessage

pub record Reason : Type 0 where
  pub code : String
  pub message : String
  pub subject_id : String

pub record Proof : Type 0 where
  pub algorithm : String
  pub digest : String

pub record Certificate : Type 0 where
  pub spec_version : String
  pub id : String
  pub decision_id : String
  pub result : RawMessage
  pub artifact_hashes : List String
  pub issued_at : Time
  pub supersedes : String
  pub proof : Proof

pub record DecisionResult : Type 0 where
  pub spec_version : String
  pub decision_id : String
  pub status : String
  pub action_allowed : Bool
  pub reasons : List Reason
  pub conditions : List String
  pub evaluated_at : Time
  pub context : Context
  pub certificate : Option Certificate
