-- ===== src/Analyzer/Review.antt =====
-- apps/control-plane/internal/analysis/code_change_review.go: one claim for each requirement of a
-- written request. `encoding/json`, `strings.ToLower` and the formats of numbers are taken from outside.
use epistemic_engine.Prelude.{
  ℕ, suc, String, Bool, true, false, not, Option, none, some, List, [], ◌∷◌, ◌++◌, ◌+◌, ◌&&◌, ◌||◌,
  ◌==◌, any_of, select, map, is_empty, length, if◌then◌else◌,
}
use epistemic_engine.Go.Effect.{Result, ok, err, failure}
use epistemic_engine.Go.Map.{Map, lookup, insert, or_zero}
use epistemic_engine.Go.Numbers.{Float64, RawMessage}
use epistemic_engine.Go.Split.{join}
use epistemic_engine.Go.Text.{concat, is_blank, trim_space, or_default}
use epistemic_engine.Domain.Status.{
  ClaimState, RelationType, is_contradicted, is_partially_supported,
}
use epistemic_engine.Domain.Run.{Event, Run, Decision}
use epistemic_engine.Domain.Claim.{Claim, Evidence, Relation, Assumption, Unknown, Analysis}
use epistemic_engine.Analyzer.Evidence.{AnalyzerEnv, evidence_of, evidence_from_events}
use epistemic_engine.Analyzer.Support.{dedupe_evidence}
use epistemic_engine.Analyzer.Rules.{claim, bound_claim, analyze}

pub record DeclaredRequirement : Type 0 where
  pub id : String
  pub text : String
  pub critical : Bool
  pub required_evidence_types : List String

pub record RequirementsPayload : Type 0 where
  pub request : String
  pub requirements : List DeclaredRequirement

pub record RequirementAssessment : Type 0 where
  pub requirement_id : String
  pub status : String
  pub confidence : Float64
  pub rationale : String
  pub evidence_refs : List String
  pub reviewer : String

pub record ReviewObservation : Type 0 where
  pub assessment : RequirementAssessment
  pub evidence : Evidence

-- Decoding writes over the declaration of before.
pub record ReviewEnv : Type 0 where
  pub analyzer : AnalyzerEnv
  pub decode_requirements : RawMessage → RequirementsPayload → Option RequirementsPayload
  pub decode_assessment : RawMessage → Option RequirementAssessment
  pub decode_artifact : RawMessage → Option String
  pub lower : String → String
  pub decimal : ℕ → String
  pub percent : Float64 → String  -- `%.0f` of a hundred times the value
  pub below : Float64 → Float64 → Bool

-- `minimumReviewConfidence`, 0.80
abbrev pub minimum_confidence : Float64
minimum_confidence = 0x3fe999999999999a

-- `missingEvidenceTypes`
unfoldable pub missing_evidence_types : List Evidence → List String → List String
missing_evidence_types artifacts required =
    select (λ kind. not (any_of (λ (a : Evidence). a.kind == kind) artifacts)) required

-- `observations[len(observations)-1].assessment`
unfoldable pub last_assessment :
    RequirementAssessment → List ReviewObservation → RequirementAssessment
last_assessment a [] = a
last_assessment a (o ∷ os) = last_assessment o.assessment os

module _ (world : ReviewEnv) where
  -- `reviewJustification`
  unfoldable pub review_justification : RequirementAssessment → String → String
  review_justification a prefix =
      let reviewer = if is_blank a.reviewer then "unspecified reviewer" else a.reviewer in
      let detail = or_default (trim_space a.rationale) "No rationale supplied." in
      concat prefix (
        concat " (" (
          concat reviewer
            (concat ", confidence " (concat (world.percent a.confidence) (concat "%). " detail)))))

  abbrev pub is_failed : ReviewObservation → Bool
  is_failed o =
      let status = world.lower o.assessment.status in status == "failed" || status == "contradicted"

  -- The loop for the first observation of a failure.
  unfoldable pub first_failed : List ReviewObservation → Option ReviewObservation
  first_failed [] = none
  first_failed (o ∷ os) = let rest = first_failed os in if is_failed o then some o else rest

  -- `case "passed", "covered"`
  unfoldable pub covered_state :
      RequirementAssessment → List Evidence → List String → ClaimState × String
  unfolding missing_evidence_types review_justification
  covered_state best artifacts required =
      let missing = missing_evidence_types artifacts required in
      if world.below best.confidence minimum_confidence || is_empty artifacts
      then (
        ClaimState.verification_pending,
        review_justification best
            "The reviewer reported coverage, but the confidence or evidence-reference gate was not met",
      )
      else if not (is_empty missing)
      then (
        ClaimState.partially_supported,
        review_justification best (
            concat "The reviewer reported coverage, but direct evidence is missing for: "
              (join ", " missing)),
      )
      else (ClaimState.supported, review_justification best "The reviewer found direct coverage")

  abbrev pub reports_coverage : RequirementAssessment → Bool
  reports_coverage a = let s = world.lower a.status in s == "passed" || s == "covered"

  abbrev pub reports_part : RequirementAssessment → Bool
  reports_part a = let s = world.lower a.status in s == "partial" || s == "partially_covered"

  -- The `switch` on the status of the last assessment.
  unfoldable pub status_state :
      RequirementAssessment → List Evidence → List String → ClaimState × String
  unfolding covered_state review_justification
  status_state best artifacts required =
      if reports_coverage best
      then covered_state best artifacts required
      else if reports_part best
      then (
        ClaimState.partially_supported,
        review_justification best "The reviewer found only partial coverage",
      )
      else (
        ClaimState.verification_pending,
        review_justification best "The reviewer did not provide a decisive supported result",
      )

  -- `reviewState`
  unfoldable pub review_state :
      List ReviewObservation → List Evidence → List String → ClaimState × String
  unfolding first_failed status_state last_assessment
  review_state [] artifacts required =
      (ClaimState.verification_pending, "No reviewer assessment is bound to this requirement.")
  review_state (o ∷ os) artifacts required = elim (first_failed (o ∷ os)) [
    | some f ↦ (
      ClaimState.contradicted,
      review_justification f.assessment "The submitted change contradicts this requirement",
    )
    | none ↦ status_state (last_assessment o.assessment os) artifacts required
  ]

-- What the loop over the events collects.
pub record Reading : Type 0 where
  pub declaration : RequirementsPayload
  pub declared_by : Evidence
  pub assessments : Map (List ReviewObservation)
  pub artifacts : Map Evidence

abbrev zero_evidence : Evidence
zero_evidence = record {
  id = "";
  run_id = "";
  kind = "";
  source = "";
  summary = "";
  uri = "";
  content_hash = "";
  observed_at = 0;
  raw = [];
  metadata = [];
}

abbrev pub nothing_read : Reading
nothing_read = record {
  declaration = record { request = ""; requirements = [] };
  declared_by = zero_evidence;
  assessments = [];
  artifacts = [];
}

abbrev pub assessed : RequirementAssessment → Evidence → Reading → Reading
assessed a e r = record r {
  assessments =
      insert a.requirement_id
        (or_zero [] (lookup a.requirement_id r.assessments)
          ++ record { assessment = a; evidence = e } ∷ [])
        r.assessments;
}

module _ (world : ReviewEnv) (run_id : String) where
  -- One turn of the loop: the `switch` on the type of the event.
  unfoldable pub read_event : Event → Reading → Result Reading
  unfolding evidence_of
  read_event e r =
      let type = world.lower e.type in
      let evidence = evidence_of world.analyzer run_id e in
      if type == "requirements.declared"
      then elim (world.decode_requirements e.payload r.declaration) [
        | none ↦ err (failure "decode requirements.declared")
        | some d ↦ ok (record r { declaration = d; declared_by = evidence })
      ]
      else if type == "requirement.assessed"
      then elim (world.decode_assessment e.payload) [
        | none ↦ err (failure "decode requirement.assessed")
        | some a ↦ ok (assessed a evidence r)
      ]
      else if type == "change.artifact.observed"
      then elim (world.decode_artifact e.payload) [
        | none ↦ err (failure "decode change.artifact.observed")
        | some id ↦
            ok (if is_blank id then r else record r { artifacts = insert id evidence r.artifacts })
      ]
      else ok r

  unfoldable pub read_events : List Event → Reading → Result Reading
  unfolding read_event
  read_events [] r = ok r
  read_events (e ∷ es) r = elim (read_event e r) [ err x ↦ err x | ok next ↦ read_events es next ]

-- The artifacts that are there under the references.
unfoldable pub found_artifacts : Map Evidence → List String → List Evidence
found_artifacts artifacts [] = []
found_artifacts artifacts (id ∷ ids) =
    let rest = found_artifacts artifacts ids in
    elim (lookup id artifacts) [ none ↦ rest | some e ↦ e ∷ rest ]

unfoldable pub referenced_artifacts : Map Evidence → List ReviewObservation → List Evidence
unfolding found_artifacts
referenced_artifacts artifacts [] = []
referenced_artifacts artifacts (o ∷ os) =
    found_artifacts artifacts o.assessment.evidence_refs ++ referenced_artifacts artifacts os

abbrev is_verification_pending : ClaimState → Bool
is_verification_pending ClaimState.verification_pending = true
is_verification_pending _ = false

-- The type of a relation from an evidence that is not the declaration.
abbrev pub bearing : ClaimState → RelationType
bearing state =
    if is_contradicted state
    then RelationType.contradicts
    else if is_partially_supported state || is_verification_pending state
    then RelationType.qualifies
    else RelationType.supports

abbrev pub review_relation : Reading → Claim → Evidence → Relation
review_relation r c e = record {
  id = "";
  from_id = e.id;
  to_id = c.id;
  type = if e.id == r.declared_by.id then RelationType.derived_from else bearing c.state;
  rationale = c.justification;
}

abbrev pub review_assumption : DeclaredRequirement → Claim → Assumption
review_assumption q c = record {
  id = "";
  decision_id = "";
  claim_id = c.id;
  statement =
      concat "The PR is assumed to cover requirement "
        (concat q.id ", but direct evidence is missing or below the confidence gate.");
  critical = true;
  status = "open";
  impact = "blocks_merge";
}

abbrev pub review_unknown : DeclaredRequirement → Unknown
review_unknown q = record {
  id = "";
  decision_id = "";
  question =
      concat "What direct PR change or test verifies requirement "
        (concat q.id (concat ": " q.text));
  critical = true;
  resolved = false;
}

module _ (world : ReviewEnv) where
  -- What one requirement adds, and how often the clock was read for it.
  unfoldable pub review_requirement : ℕ → ℕ → Reading → DeclaredRequirement → Analysis × ℕ
  unfolding review_state referenced_artifacts dedupe_evidence bound_claim
  review_requirement reading index r q =
      let required =
        if is_empty q.required_evidence_types
        then "code_diff" ∷ "test_result" ∷ []
        else q.required_evidence_types in
      let observations = or_zero [] (lookup q.id r.assessments) in
      let artifacts = dedupe_evidence (referenced_artifacts r.artifacts observations) in
      let (state, justification) = review_state world observations artifacts required in
      let bound =
        dedupe_evidence
          (r.declared_by ∷ map (λ (o : ReviewObservation). o.evidence) observations ++ artifacts) in
      let c =
        claim (concat "change_requirement_" (world.decimal (suc index))) q.text
          (concat "request requirement " q.id) q.critical required state justification in
      let is_open = q.critical && is_verification_pending state in
      (
        record {
          claims = bound_claim world.analyzer reading bound c ∷ [];
          evidence = [];
          relations = map (review_relation r c) bound;
          assumptions = if is_open then review_assumption q c ∷ [] else [];
          unknowns = if is_open then review_unknown q ∷ [] else [];
        },
        length bound,
      )

  abbrev pub joined : Analysis → Analysis → Analysis
  joined a b = record {
    claims = a.claims ++ b.claims;
    evidence = a.evidence ++ b.evidence;
    relations = a.relations ++ b.relations;
    assumptions = a.assumptions ++ b.assumptions;
    unknowns = a.unknowns ++ b.unknowns;
  }

  -- The loop over the requirements, with the claims so far.
  unfoldable pub review_requirements :
      ℕ → ℕ → Reading → Analysis → List DeclaredRequirement → Result Analysis
  unfolding review_requirement
  review_requirements reading index r done [] = ok done
  review_requirements reading index r done (q ∷ qs) =
      if is_blank q.id || is_blank q.text
      then err (failure "requirement must contain id and text")
      else (let (a, count) = review_requirement reading index r q in
          review_requirements (reading + count) (suc index) r (joined done a) qs)

  -- `analyzeCodeChangeReview`
  unfoldable pub review : Run → Result Analysis
  unfolding read_events review_requirements evidence_from_events
  review run = elim (read_events world run.id run.events nothing_read) [
    | err x ↦ err x
    | ok r ↦
        review_requirements 0 0 r
          (record {
            claims = [];
            evidence = evidence_from_events world.analyzer run;
            relations = [];
            assumptions = [];
            unknowns = [];
          })
          r.declaration.requirements
  ]

  -- `RulesAnalyzer.Analyze`
  unfoldable pub analyze_decision : Run → Decision → Result Analysis
  unfolding review analyze
  analyze_decision run decision =
      if decision.action_type == "code_change_review"
      then review run
      else ok (analyze world.analyzer run)
