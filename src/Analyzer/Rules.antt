-- ===== src/Analyzer/Rules.antt =====
-- apps/control-plane/internal/analysis/rules.go: `RulesAnalyzer.Analyze`.
use epistemic_engine.Prelude.{
  ℕ, String, Bool, true, false, List, [], ◌∷◌, ◌++◌, ◌+◌, ◌&&◌, ◌||◌, any_of, select, length, map,
  ◌==◌, if◌then◌else◌,
}
use epistemic_engine.Go.Split.{join}
use epistemic_engine.Go.Text.{concat}
use epistemic_engine.Domain.Status.{ClaimState, RelationType, is_contradicted}
use epistemic_engine.Domain.Run.{Event, Run}
use epistemic_engine.Domain.Claim.{
  Claim, Evidence, Relation, Assumption, Unknown, Analysis, zero_claim,
}
use epistemic_engine.Analyzer.Text.{value_of, mentions}
use epistemic_engine.Analyzer.Sees
use epistemic_engine.Analyzer.Evidence.{AnalyzerEnv, evidence_from_events}
use epistemic_engine.Analyzer.Support.{dedupe_evidence, support_for}

pub record Observed : Type 0 where
  pub build_pass : Bool
  pub build_fail : Bool
  pub unit_pass : Bool
  pub unit_fail : Bool
  pub compatibility_pass : Bool
  pub compatibility_fail : Bool
  pub pii_pass : Bool
  pub pii_leak : Bool
  pub rollback_ready : Bool

abbrev pub nothing_observed : Observed
nothing_observed = record {
  build_pass = false;
  build_fail = false;
  unit_pass = false;
  unit_fail = false;
  compatibility_pass = false;
  compatibility_fail = false;
  pii_pass = false;
  pii_leak = false;
  rollback_ready = false;
}

-- `if test { flag = flag || seen }`
abbrev pub noted : Bool → Bool → Bool → Bool
noted test seen flag = if test then flag || seen else flag

-- One turn of the loop over the events.
unfoldable pub observe : List ℕ → Observed → Observed
unfolding Sees.passed Sees.failed Sees.compatibility Sees.pii_test Sees.unit Sees.build Sees.leak
    Sees.rollback
observe v o =
    let passed = Sees.passed v in
    let failed = Sees.failed v in
    record {
      build_pass = noted (Sees.build v) passed o.build_pass;
      build_fail = noted (Sees.build v) failed o.build_fail;
      unit_pass = noted (Sees.unit v) passed o.unit_pass;
      unit_fail = noted (Sees.unit v) failed o.unit_fail;
      compatibility_pass = noted (Sees.compatibility v) passed o.compatibility_pass;
      compatibility_fail = noted (Sees.compatibility v) failed o.compatibility_fail;
      pii_pass = noted (Sees.pii_test v) passed o.pii_pass;
      pii_leak = if Sees.leak v then true else o.pii_leak;
      rollback_ready = if Sees.rollback v then true else o.rollback_ready;
    }

abbrev pub value_of_event : Event → List ℕ
value_of_event e = value_of e.type e.payload

unfoldable pub observe_all : List Event → Observed → Observed
unfolding observe
observe_all [] o = o
observe_all (e ∷ es) o = observe_all es (observe (value_of_event e) o)

-- `observedState`, and `privacyState`, which is the same function.
unfoldable pub observed_state : Bool → Bool → ClaimState
observed_state passed failed =
    if failed
    then ClaimState.contradicted
    else if passed
    then ClaimState.supported
    else ClaimState.verification_pending

unfoldable pub privacy_state : Bool → Bool → ClaimState
privacy_state passed leaked =
    if leaked
    then ClaimState.contradicted
    else if passed
    then ClaimState.supported
    else ClaimState.verification_pending

-- `claim`
abbrev pub claim : String → String → String → Bool → List String → ClaimState → String → Claim
claim id statement scope critical required state justification = record zero_claim {
  id = id;
  statement = statement;
  scope = scope;
  critical = critical;
  importance = if critical then "critical" else "supporting";
  required_evidence_types = required;
  state = state;
  justification = justification;
}

abbrev pub build_claim : Observed → Claim
build_claim o =
    claim "claim_build" "The proposed revision builds successfully." "proposed revision" true
      ("build_result" ∷ []) (observed_state o.build_pass o.build_fail)
      "Build observations must match the exact proposed revision."

abbrev pub tests_claim : Observed → Claim
tests_claim o =
    claim "claim_tests" "The relevant automated test suite passes for the proposed revision."
      "unit and integration tests" true ("test_result" ∷ [])
      (observed_state o.unit_pass o.unit_fail)
      "Test results are scoped to the revision and suite reported by CI."

abbrev pub compatibility_claim : Observed → Claim
compatibility_claim o =
    claim "claim_compatibility"
      "The change is backward-compatible with deployed interfaces and data."
      "public interfaces, stored data, and legacy clients" true ("migration" ∷ "test_result" ∷ [])
      (observed_state o.compatibility_pass o.compatibility_fail)
      "Compatibility requires a migration or legacy-client check, not only unit tests."

abbrev pub privacy_claim : Observed → Claim
privacy_claim o =
    claim "claim_privacy" "The change does not expose email addresses or other PII in logs."
      "application and audit logs" true ("code_diff" ∷ "log_output" ∷ "test_result" ∷ [])
      (privacy_state o.pii_pass o.pii_leak)
      "Logging personal data contradicts the deployment privacy requirement."

abbrev pub rollback_claim : Observed → Claim
rollback_claim o =
    claim "claim_rollback" "Rollback and operational signals are sufficient to recover safely."
      "staging and production operations" false ("trace_output" ∷ "custom" ∷ [])
      (observed_state o.rollback_ready false)
      "Operational recovery requires an explicit rollback or staging observation."

-- `filterEvidence`
unfoldable pub filter_evidence : List String → List Evidence → List Evidence
unfolding mentions value_of
filter_evidence terms es =
    select
      (λ e.
        let value = value_of (concat e.kind (concat " " e.summary)) e.raw in
        any_of (λ term. mentions term value) terms)
      es

abbrev pub of_kind : String → List Evidence → List Evidence
of_kind kind es = select (λ e. e.kind == kind) es

abbrev pub is_pending : ClaimState → Bool
is_pending ClaimState.unsupported = true
is_pending ClaimState.verification_pending = true
is_pending _ = false

abbrev pub relation_of : Claim → Evidence → Relation
relation_of c e = record {
  id = "";
  from_id = e.id;
  to_id = c.id;
  type = if is_contradicted c.state then RelationType.contradicts else RelationType.supports;
  rationale = c.justification;
}

abbrev pub assumption_of : Claim → Assumption
assumption_of c = record {
  id = "";
  decision_id = "";
  claim_id = c.id;
  statement =
      concat "Required evidence is assumed but not present: " (join ", " c.required_evidence_types);
  critical = true;
  status = "open";
  impact = "blocks_deployment";
}

abbrev pub unknown_of : Claim → Unknown
unknown_of c = record {
  id = "";
  decision_id = "";
  question = concat "What direct evidence verifies: " c.statement;
  critical = true;
  resolved = false;
}

unfoldable pub assumptions_of : Claim → List Assumption
assumptions_of c = if c.critical && is_pending c.state then assumption_of c ∷ [] else []

unfoldable pub unknowns_of : Claim → List Unknown
unknowns_of c = if c.critical && is_pending c.state then unknown_of c ∷ [] else []

module _ (env : AnalyzerEnv) where
  -- A claim with the evidence that is bound to it.
  unfoldable pub bound_claim : ℕ → List Evidence → Claim → Claim
  unfolding support_for
  bound_claim reading bound c = record c {
    support = support_for env reading bound c.state;
    evidence_ids = map (λ e. e.id) bound;
  }

  -- The loop over the claims, each with the evidence of `bindings`; the repeated evidence goes.
  unfoldable pub bind_claims : ℕ → List (Claim × List Evidence) → Analysis
  unfolding bound_claim assumptions_of unknowns_of dedupe_evidence
  bind_claims reading [] = record {
    claims = [];
    evidence = [];
    relations = [];
    assumptions = [];
    unknowns = [];
  }
  bind_claims reading ((c, bindings) ∷ cs) =
      let bound = dedupe_evidence bindings in
      let rest = bind_claims (reading + length bound) cs in
      record {
        claims = bound_claim reading bound c ∷ rest.claims;
        evidence = rest.evidence;
        relations = map (relation_of c) bound ++ rest.relations;
        assumptions = assumptions_of c ++ rest.assumptions;
        unknowns = unknowns_of c ++ rest.unknowns;
      }

  abbrev pub bindings : Observed → List Evidence → List (Claim × List Evidence)
  bindings o es =
      (build_claim o, of_kind "build_result" es)
      ∷ (tests_claim o, of_kind "test_result" es)
      ∷ (
        compatibility_claim o,
        of_kind "migration" es ++ filter_evidence ("compatib" ∷ "legacy" ∷ "migration" ∷ []) es,
      )
      ∷ (privacy_claim o, filter_evidence ("pii" ∷ "privacy" ∷ "email" ∷ "log" ∷ "diff" ∷ []) es)
      ∷ (rollback_claim o, filter_evidence ("rollback" ∷ []) es)
      ∷ []

  -- `Analyze` for an action that is no review of a code change.
  unfoldable pub analyze : Run → Analysis
  unfolding observe_all bind_claims evidence_from_events observed_state privacy_state
      filter_evidence
  analyze run =
      let es = evidence_from_events env run in
      record (bind_claims 0 (bindings (observe_all run.events nothing_observed) es)) {
        evidence = es;
      }
