-- ===== src/Policy.antt =====
-- apps/control-plane/internal/policy/policy.go: the gate that decides on a claim graph. Each loop
-- with an early return is a function that gives `none` where the code returns.
pub mod Laws
pub mod Order
mod Examples
use epistemic_engine.Prelude.{
  String, Bool, true, false, Option, none, some, List, [], ◌∷◌, ◌++◌, not, ◌&&◌, ◌||◌, is_empty,
  if◌then◌else◌,
}
use epistemic_engine.Go.Text.{concat}
use epistemic_engine.Domain.Status.{
  ClaimState, supported, externally_verified, partially_supported, Verdict, is_rejected,
  is_contradicted,
}
use epistemic_engine.Domain.Claim.{Claim, Unknown, Graph}

abbrev pub version : String
version = "deployment-readiness/v1"

pub record Result : Type 0 where
  pub verdict : Verdict
  pub conditions : List String
  pub action_allowed : Bool

-- `Result{Verdict: v}`
abbrev only : Verdict → Result
only v = record { verdict = v; conditions = []; action_allowed = false }

-- The first loop: `none` when a claim is rejected, otherwise `hasCriticalClaim`.
find_critical : Bool → List Claim → Option Bool
find_critical has [] = some has
find_critical has (c ∷ cs) =
    let rest = find_critical (has || c.critical) cs in if is_rejected c.state then none else rest

-- The second loop: whether it returns.
finds_contradicted : List Claim → Bool
finds_contradicted [] = false
finds_contradicted (c ∷ cs) =
    let rest = finds_contradicted cs in if is_contradicted c.state then true else rest

abbrev partial_condition : Claim → String
partial_condition c = concat "Resolve partial support: " c.statement

-- The `switch` of the third loop, on the conditions and `hasExternalVerification` so far.
gate_claim : ClaimState → Claim → List String × Bool → Option (List String × Bool)
gate_claim supported c (conditions, external) = some (conditions, external)
gate_claim externally_verified c (conditions, external) = some (conditions, true)
gate_claim partially_supported c (conditions, external) =
    some (conditions ++ partial_condition c ∷ [], external)
gate_claim _ c (conditions, external) = none

-- The third loop.
gate_claims : List Claim → List String × Bool → Option (List String × Bool)
unfolding gate_claim
gate_claims [] acc = some acc
gate_claims (c ∷ cs) acc =
    let skip = gate_claims cs acc in
    let next = λ (acc' : List String × Bool). gate_claims cs acc' in
    if not c.critical
    then skip
    else elim (gate_claim c.state c acc) [ none ↦ none | some acc' ↦ next acc' ]

-- The loop over the unknowns: whether it returns.
finds_open_unknown : List Unknown → Bool
finds_open_unknown [] = false
finds_open_unknown (u ∷ us) =
    let rest = finds_open_unknown us in if u.critical && not u.resolved then true else rest

abbrev retain_condition : String
retain_condition = "Retain verification artifacts and monitor the first staged rollout."

-- The end of the function, behind every return.
conclude : Bool → List String × Bool → Result
conclude human_approved (conditions, external) =
    let all = if external then conditions ++ retain_condition ∷ [] else conditions in
    record {
      verdict = if is_empty all then Verdict.verified else Verdict.verified_with_conditions;
      conditions = all;
      action_allowed = human_approved;
    }

after_contradictions : Graph → Bool → Result
unfolding gate_claims finds_open_unknown conclude
after_contradictions g human_approved = elim (gate_claims g.claims ([], false)) [
  | none ↦ only Verdict.insufficient_evidence
  | some acc ↦
      if finds_open_unknown g.unknowns
      then only Verdict.insufficient_evidence
      else conclude human_approved acc
]

after_rejections : Graph → Bool → Bool → Result
unfolding finds_contradicted after_contradictions
after_rejections g human_approved has_critical =
    if not has_critical
    then only Verdict.insufficient_evidence
    else if finds_contradicted g.claims
    then only Verdict.contradicted
    else after_contradictions g human_approved

unfoldable pub evaluate : Graph → Bool → Result
unfolding find_critical after_rejections
evaluate g human_approved =
    if is_empty g.claims
    then only Verdict.insufficient_evidence
    else elim (find_critical false g.claims) [
      | none ↦ only Verdict.rejected
      | some has_critical ↦ after_rejections g human_approved has_critical
    ]
