-- ===== src/Analyzer/Support.antt =====
-- `dedupeEvidence` and `supportFor` of apps/control-plane/internal/analysis/rules.go.
use epistemic_engine.Prelude.{
  ℕ, suc, ◌*◌, String, Bool, List, [], ◌∷◌, ◌||◌, ltb, length, is_empty, any_of, ◌==◌,
  if◌then◌else◌,
}
use epistemic_engine.Go.Numbers.{Float64, float_zero, float_one}
use epistemic_engine.Domain.Status.{
  ClaimState, is_supported, is_externally_verified, is_contradicted,
}
use epistemic_engine.Domain.Claim.{Evidence, SupportScore}
use epistemic_engine.Analyzer.Evidence.{Floats, AnalyzerEnv}

abbrev pub is_seen : String → List String → Bool
is_seen id seen = any_of (λ i. i == id) seen

-- `seen` is the set of the identifiers met so far.
unfoldable pub dedupe_from : List String → List Evidence → List Evidence
dedupe_from seen [] = []
dedupe_from seen (e ∷ es) =
    let rest = dedupe_from (e.id ∷ seen) es in if is_seen e.id seen then rest else e ∷ rest

-- `dedupeEvidence`
unfoldable pub dedupe_evidence : List Evidence → List Evidence
unfolding dedupe_from
dedupe_evidence es = dedupe_from [] es

-- The constants .6, .8, .10, .15 and .25.
abbrev six_tenths : Float64
six_tenths = 0x3fe3333333333333

abbrev eight_tenths : Float64
eight_tenths = 0x3fe999999999999a

abbrev tenth : Float64
tenth = 0x3fb999999999999a

abbrev fifteen_hundredths : Float64
fifteen_hundredths = 0x3fc3333333333333

abbrev quarter : Float64
quarter = 0x3fd0000000000000

abbrev pub quality_of : String → Float64
quality_of kind =
    if kind == "test_result" || kind == "build_result" || kind == "migration"
    then float_one
    else if kind == "code_diff" || kind == "log_output"
    then eight_tenths
    else six_tenths

-- `30*24*time.Hour`
abbrev thirty_days : ℕ
thirty_days = 30 * 24 * 3600000000000

-- `len(sources)`: the sources that do not come again.
count_sources : List Evidence → ℕ
count_sources [] = 0
count_sources (e ∷ es) =
    let rest = count_sources es in if any_of (λ f. f.source == e.source) es then rest else suc rest

module _ (f : Floats) where
  sum_quality : Float64 → List Evidence → Float64
  sum_quality total [] = total
  sum_quality total (e ∷ es) = sum_quality (f.plus total (quality_of e.kind)) es

  -- `totalFresh++` for an item that is younger.
  sum_fresh : (ℕ → Evidence → Bool) → ℕ → Float64 → List Evidence → Float64
  sum_fresh is_fresh reading total [] = total
  sum_fresh is_fresh reading total (e ∷ es) =
      sum_fresh is_fresh (suc reading)
        (if is_fresh reading e then f.plus total float_one else total) es

  abbrev share : List Evidence → Float64 → Float64
  share es total = if is_empty es then total else f.divide total (f.of_count (length es))

  abbrev at_most_one : Float64 → Float64
  at_most_one x = if f.exceeds x float_one then float_one else x

abbrev pub directness : ClaimState → Float64
directness state =
    if is_externally_verified state
    then float_one
    else if is_supported state
    then eight_tenths
    else float_zero

module _ (env : AnalyzerEnv) where
  -- `supportFor`, whose readings of the clock begin at the given one.
  unfoldable pub support_for : ℕ → List Evidence → ClaimState → SupportScore
  unfolding sum_quality sum_fresh count_sources
  support_for reading es state =
      let f = env.floats in
      let coverage = if is_empty es then float_zero else float_one in
      let quality = share f es (sum_quality f float_zero es) in
      let fresh =
        share f es (
          sum_fresh f (λ n e. ltb (env.since n e.observed_at) thirty_days) reading float_zero es) in
      let independence =
        if is_empty es
        then float_zero
        else at_most_one f (f.divide (f.of_count (count_sources es)) (f.of_count (length es))) in
      let direct = directness state in
      let burden = if is_contradicted state then float_one else float_zero in
      let weighted =
        f.plus
          (f.plus
            (f.plus
              (f.plus (f.plus (f.times quarter coverage) (f.times fifteen_hundredths quality))
                (f.times tenth independence))
              (f.times tenth fresh))
            (f.times fifteen_hundredths coverage))
          (f.times quarter direct) in
      record {
        value = f.times weighted (f.minus float_one burden);
        evidence_coverage = coverage;
        source_quality = quality;
        source_independence = independence;
        freshness = fresh;
        scope_match = coverage;
        direct_verification_strength = direct;
        contradiction_burden = burden;
        semantics = "explainable evidence support; not probability of truth";
      }
