-- ===== src/Analyzer/Examples.antt =====
-- Runs of the rules of apps/control-plane/internal/analysis on a few events.
use epistemic_engine.Prelude.{String, true, false, none, [], ◌∷◌, ◌≡◌, ◌↔◌, refl}
use epistemic_engine.Go.Numbers.{pos}
use epistemic_engine.Go.Text.{bytes_of, has_infix}
use epistemic_engine.Domain.Run.{Event, Run, zero_run}
use epistemic_engine.Domain.Claim.{Evidence, Graph}
use epistemic_engine.Domain.Run.{zero_decision}
use epistemic_engine.Policy.{evaluate}
use epistemic_engine.Analyzer.Text.{lower_bytes, value_of, mentions, has_email}
use epistemic_engine.Analyzer.Evidence.{Floats, AnalyzerEnv, evidence_kind, evidence_of}
use epistemic_engine.Analyzer.Rules.{nothing_observed, observe_all}
use epistemic_engine.Domain.Status.{is_supported}
use epistemic_engine.Analyzer.Review.{
  ReviewObservation, ReviewEnv, review_state, status_state, covered_state, missing_evidence_types,
  first_failed, last_assessment,
}
use epistemic_engine.Analyzer.Coverage.{IsCovered, supported-review_state_iff}
use epistemic_engine.Analyzer.Gate.{IsClean, analyzed, action_allowed-analyze_iff}

abbrev floats : Floats
floats = record {
  plus = λ x y. x;
  minus = λ x y. x;
  times = λ x y. x;
  divide = λ x y. x;
  exceeds = λ x y. false;
  of_count = λ n. n;
}

abbrev world : AnalyzerEnv
world = record {
  sha256_hex = λ bytes. "0123456789abcdef";
  declared_kind = λ bytes. none;
  since = λ n t. 0;
  floats = floats;
}

abbrev event : String → String → Event
event id type = record {
  id = id;
  external_id = id;
  sequence = pos 0;
  type = type;
  source = "ci";
  correlation_id = "";
  occurred_at = 1;
  payload = 123 ∷ 125 ∷ [];
}

abbrev run : Run
run = record zero_run {
  events = event "1" "BUILD PASSED" ∷ event "2" "Email test passed" ∷ event "3" "build error" ∷ [];
}

abbrev graph : Graph
graph = record {
  run = run;
  decision = zero_decision;
  claims = [];
  evidence = [];
  relations = [];
  assumptions = [];
  unknowns = [];
  verifications = [];
}

build_observed :
    observe_all run.events nothing_observed
    ≡ record nothing_observed { build_pass = true; build_fail = true; pii_pass = true }
unfolding observe_all value_of mentions has_infix bytes_of lower_bytes has_email
build_observed = refl

address_found : has_email (bytes_of "log: jo.doe@example.com") ≡ true
unfolding has_email bytes_of
address_found = refl

no_address_found : has_email (bytes_of "log: @example.com, a@b.c") ≡ false
unfolding has_email bytes_of
no_address_found = refl

kind_guessed : evidence_kind world "CI Schema check" [] ≡ "migration"
unfolding evidence_kind
kind_guessed = refl

action_allowed-analyze_iff_example :
    ((evaluate (analyzed world run graph) true).action_allowed ≡ true)
    ↔ ((true ≡ true) × IsClean run.events)
action_allowed-analyze_iff_example = action_allowed-analyze_iff world run graph true

abbrev review_world : ReviewEnv
review_world = record {
  analyzer = world;
  decode_requirements = λ bytes old. none;
  decode_assessment = λ bytes. none;
  decode_artifact = λ bytes. none;
  lower = λ s. s;
  decimal = λ n. "1";
  percent = λ c. "90";
  below = λ a b. false;
}

abbrev observation : ReviewObservation
observation = record {
  assessment = record {
    requirement_id = "r";
    status = "covered";
    confidence = 0x3ff0000000000000;
    rationale = "";
    evidence_refs = "diff" ∷ [];
    reviewer = "";
  };
  evidence = evidence_of world "run" (event "1" "requirement.assessed");
}

-- An artifact that the assessment refers to.
abbrev artifact : Evidence
artifact = record (evidence_of world "run" (event "2" "change.artifact.observed")) {
  kind = "code_diff";
}

abbrev hesitant : ReviewObservation
hesitant = record observation { assessment = record observation.assessment { status = "unsure" } }

supported-review_state_iff_example :
    (is_supported
        (review_state review_world
          (hesitant ∷ observation ∷ [])
          (artifact ∷ [])
          ("code_diff" ∷ [])).0
      ≡ true)
    ↔ IsCovered review_world (hesitant ∷ []) observation (artifact ∷ []) ("code_diff" ∷ [])
supported-review_state_iff_example =
    supported-review_state_iff review_world (hesitant ∷ []) observation (artifact ∷ [])
      ("code_diff" ∷ [])

covered :
    is_supported
      (review_state review_world (hesitant ∷ observation ∷ []) (artifact ∷ []) ("code_diff" ∷ [])).0
    ≡ true
unfolding review_state status_state covered_state missing_evidence_types first_failed
    last_assessment
covered = refl
