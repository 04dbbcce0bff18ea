-- ===== src/Analyzer/Evidence.antt =====
-- apps/control-plane/internal/analysis/analyzer.go: the evidence that events give, and its kind.
-- `encoding/json`, SHA-256, the clock and the arithmetic of float64 are taken from outside.
use epistemic_engine.Prelude.{
  ℕ, String, Bool, Option, none, some, List, [], ◌∷◌, ◌||◌, any_of, map, ◌==◌, if◌then◌else◌,
}
use epistemic_engine.Go.Numbers.{RawMessage, Float64, Time}
use epistemic_engine.Go.Text.{concat, bytes_of, take_text}
use epistemic_engine.Domain.Run.{Event, Run}
use epistemic_engine.Domain.Claim.{Evidence}
use epistemic_engine.Analyzer.Text.{value_of, mentions}

pub record Floats : Type 0 where
  pub plus : Float64 → Float64 → Float64
  pub minus : Float64 → Float64 → Float64
  pub times : Float64 → Float64 → Float64
  pub divide : Float64 → Float64 → Float64
  pub exceeds : Float64 → Float64 → Bool
  pub of_count : ℕ → Float64

pub record AnalyzerEnv : Type 0 where
  pub sha256_hex : RawMessage → String
  pub declared_kind : RawMessage → Option String  -- the member "kind", where `json.Unmarshal` succeeds
  pub since : ℕ → Time → ℕ  -- `time.Since`, at the n-th reading of the clock
  pub floats : Floats

abbrev pub known_kinds : List String
known_kinds =
    "build_result" ∷ "test_result" ∷ "migration" ∷ "code_diff" ∷ "log_output" ∷ "trace_output"
    ∷ "custom" ∷ []

abbrev pub is_known_kind : String → Bool
is_known_kind kind = any_of (λ k. k == kind) known_kinds

-- The `switch` on the words of the text.
unfoldable pub guessed_kind : List ℕ → String
unfolding mentions
guessed_kind value =
    if mentions "migration" value || mentions "schema" value
    then "migration"
    else if mentions "diff" value || mentions "patch" value
    then "code_diff"
    else if mentions "test" value
    then "test_result"
    else if mentions "log" value
    then "log_output"
    else if mentions "build" value
    then "build_result"
    else if mentions "model" value
        || mentions "tool" value
        || mentions "guardrail" value
        || mentions "trace" value
    then "trace_output"
    else "custom"

module _ (env : AnalyzerEnv) where
  -- `evidenceKind`
  unfoldable pub evidence_kind : String → RawMessage → String
  unfolding guessed_kind value_of
  evidence_kind type payload = elim (env.declared_kind payload) [
    | none ↦ guessed_kind (value_of type payload)
    | some kind ↦ if is_known_kind kind then kind else guessed_kind (value_of type payload)
  ]

  -- The first 16 hexadecimal digits stand for the first 8 bytes.
  unfoldable pub evidence_of : String → Event → Evidence
  unfolding evidence_kind take_text bytes_of
  evidence_of run_id e =
      let sum = env.sha256_hex e.payload in
      record {
        id = concat "evidence_" (take_text 16 (env.sha256_hex (bytes_of (concat e.id sum))));
        run_id = run_id;
        kind = evidence_kind e.type e.payload;
        source = e.source;
        summary = concat "Imported " (concat e.type (concat " event from " e.source));
        uri = "";
        content_hash = sum;
        observed_at = e.occurred_at;
        raw = e.payload;
        metadata = [];
      }

  -- `evidenceFromEvents`
  unfoldable pub evidence_from_events : Run → List Evidence
  unfolding evidence_of
  evidence_from_events run = map (evidence_of run.id) run.events
