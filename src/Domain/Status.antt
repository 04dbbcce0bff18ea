-- ===== src/Domain/Status.antt =====
-- apps/control-plane/internal/domain/model.go: the string types with named constants. Go lets any
-- string stand in such a type, the empty one in a zero value among them: `unlisted` holds a string
-- that is none of the constants.
use epistemic_engine.Prelude.{String, Bool, true, false}

pub data RunStatus : Type 0 where
  ingesting analyzed : RunStatus
  unlisted : String → RunStatus

pub data ClaimState : Type 0 where
  supported partially_supported unsupported contradicted stale verification_pending
        externally_verified rejected :
      ClaimState
  unlisted : String → ClaimState

pub data RelationType : Type 0 where
  supports contradicts qualifies supersedes derived_from verified_by : RelationType
  unlisted : String → RelationType

pub data Verdict : Type 0 where
  verified verified_with_conditions insufficient_evidence contradicted rejected : Verdict
  unlisted : String → Verdict

-- The comparisons with a constant that the code makes.
abbrev pub is_analyzed : RunStatus → Bool
is_analyzed RunStatus.analyzed = true
is_analyzed _ = false

abbrev pub is_supported : ClaimState → Bool
is_supported ClaimState.supported = true
is_supported _ = false

abbrev pub is_externally_verified : ClaimState → Bool
is_externally_verified ClaimState.externally_verified = true
is_externally_verified _ = false

abbrev pub is_contradicted : ClaimState → Bool
is_contradicted ClaimState.contradicted = true
is_contradicted _ = false

abbrev pub is_rejected : ClaimState → Bool
is_rejected ClaimState.rejected = true
is_rejected _ = false

abbrev pub is_stale : ClaimState → Bool
is_stale ClaimState.stale = true
is_stale _ = false

abbrev pub is_partially_supported : ClaimState → Bool
is_partially_supported ClaimState.partially_supported = true
is_partially_supported _ = false

-- `string(verdict)`
unfoldable pub verdict_string : Verdict → String
verdict_string Verdict.verified = "VERIFIED"
verdict_string Verdict.verified_with_conditions = "VERIFIED_WITH_CONDITIONS"
verdict_string Verdict.insufficient_evidence = "INSUFFICIENT_EVIDENCE"
verdict_string Verdict.contradicted = "CONTRADICTED"
verdict_string Verdict.rejected = "REJECTED"
verdict_string (Verdict.unlisted s) = s

-- `string(claim.State)`
unfoldable pub claim_state_string : ClaimState → String
claim_state_string ClaimState.supported = "supported"
claim_state_string ClaimState.partially_supported = "partially_supported"
claim_state_string ClaimState.unsupported = "unsupported"
claim_state_string ClaimState.contradicted = "contradicted"
claim_state_string ClaimState.stale = "stale"
claim_state_string ClaimState.verification_pending = "verification_pending"
claim_state_string ClaimState.externally_verified = "externally_verified"
claim_state_string ClaimState.rejected = "rejected"
claim_state_string (ClaimState.unlisted s) = s

-- `string(run.Status)`
unfoldable pub run_status_string : RunStatus → String
run_status_string RunStatus.ingesting = "ingesting"
run_status_string RunStatus.analyzed = "analyzed"
run_status_string (RunStatus.unlisted s) = s
