-- ===== src/Policy/Laws.antt =====
-- What the gate of policy.go decides, against a description of a graph that passes.
use mathlib.Core.List.{append-nil, append_assoc}
use epistemic_engine.Prelude.{
  String, Bool, true, false, not, Option, none, some, List, [], ◌∷◌, ◌++◌, ◌&&◌, ◌||◌, ◌≡◌, refl,
  ◌↔◌, arith, any_of, select, map, if◌then◌else◌,
}
use epistemic_engine.Domain.Status.{
  Verdict, is_rejected, is_contradicted, is_supported, is_externally_verified,
  is_partially_supported,
}
use epistemic_engine.Domain.Claim.{Claim, Unknown, Graph}
use epistemic_engine.Policy.{
  Result, evaluate, find_critical, finds_contradicted, gate_claims, finds_open_unknown,
  partial_condition, retain_condition,
}

abbrev pub is_critical : Claim → Bool
is_critical c = c.critical

-- A critical claim that is neither supported, externally verified nor partially supported.
abbrev pub is_blocking : Claim → Bool
is_blocking c =
    c.critical
    && not
        (is_supported c.state || is_externally_verified c.state || is_partially_supported c.state)

abbrev pub is_open : Unknown → Bool
is_open u = u.critical && not u.resolved

abbrev pub has_external : Claim → Bool
has_external c = c.critical && is_externally_verified c.state

abbrev pub has_partial : Claim → Bool
has_partial c = c.critical && is_partially_supported c.state

-- The graphs that the gate lets through.
pub record Passes (g : Graph) : Type 0 where
  pub some_critical : any_of is_critical g.claims ≡ true
  pub none_rejected : any_of (λ c. is_rejected c.state) g.claims ≡ false
  pub none_contradicted : any_of (λ c. is_contradicted c.state) g.claims ≡ false
  pub none_blocking : any_of is_blocking g.claims ≡ false
  pub none_open : any_of is_open g.unknowns ≡ false

find_critical-any_of :
    (has : Bool) (cs : List Claim)
    → find_critical has cs
      ≡ (if any_of (λ c. is_rejected c.state) cs then none else some (has || any_of is_critical cs))
unfolding find_critical
find_critical-any_of true [] = refl
find_critical-any_of false [] = refl
find_critical-any_of has (c ∷ cs) = ground (arith, find_critical-any_of (has || c.critical) cs)

finds_contradicted-any_of :
    (cs : List Claim) → finds_contradicted cs ≡ any_of (λ c. is_contradicted c.state) cs
unfolding finds_contradicted
finds_contradicted-any_of [] = refl
finds_contradicted-any_of (c ∷ cs) = ground (arith, finds_contradicted-any_of cs)

finds_open_unknown-any_of : (us : List Unknown) → finds_open_unknown us ≡ any_of is_open us
unfolding finds_open_unknown
finds_open_unknown-any_of [] = refl
finds_open_unknown-any_of (u ∷ us) = ground (arith, finds_open_unknown-any_of us)

abbrev pub partial_conditions : List Claim → List String
partial_conditions cs = map partial_condition (select has_partial cs)

gate_claims-closed :
    (cs : List Claim) (conditions : List String) (external : Bool)
    → gate_claims cs (conditions, external) ≡ (
        if any_of is_blocking cs
        then none
        else some (conditions ++ partial_conditions cs, external || any_of has_external cs))
unfolding gate_claims
gate_claims-closed [] conditions true = rw append-nil
gate_claims-closed [] conditions false = rw append-nil
gate_claims-closed (c ∷ cs) conditions external = ground (
  arith,
  gate_claims-closed cs conditions external,
  gate_claims-closed cs conditions true,
  gate_claims-closed cs (conditions ++ partial_condition c ∷ []) external,
  append_assoc conditions (partial_condition c ∷ []) (partial_conditions cs),
)

-- The conditions of a graph that passes.
abbrev pub expected_conditions : Graph → List String
expected_conditions g =
    if any_of has_external g.claims
    then partial_conditions g.claims ++ retain_condition ∷ []
    else partial_conditions g.claims

-- The first obstacle in the order in which the policy looks for them.
abbrev pub first_obstacle : Graph → Option Verdict
first_obstacle g =
    if any_of (λ c. is_rejected c.state) g.claims
    then some Verdict.rejected
    else if not (any_of is_critical g.claims)
    then some Verdict.insufficient_evidence
    else if any_of (λ c. is_contradicted c.state) g.claims
    then some Verdict.contradicted
    else if any_of is_blocking g.claims || any_of is_open g.unknowns
    then some Verdict.insufficient_evidence
    else none

abbrev pub passing_verdict : List String → Verdict
passing_verdict [] = Verdict.verified
passing_verdict (c ∷ cs) = Verdict.verified_with_conditions

abbrev pub result_of : Option Verdict → List String → Bool → Result
result_of (some v) conditions approved = record {
  verdict = v;
  conditions = [];
  action_allowed = false;
}
result_of none conditions approved = record {
  verdict = passing_verdict conditions;
  conditions = conditions;
  action_allowed = approved;
}

abbrev pub spec : Graph → Bool → Result
spec g approved = result_of (first_obstacle g) (expected_conditions g) approved

-- The gate's result is: on the first obstacle (a rejected claim; no critical claim; a contradicted
-- claim; a critical claim in another state than supported, externally verified or partially
-- supported, or an open critical unknown) its verdict alone, with no condition and no permission;
-- without an obstacle the conditions of the partially supported critical claims in their order,
-- one more if a critical claim is externally verified, the verdict that says whether there are
-- conditions, and permission exactly as the human approval says.
pub evaluate-eq-spec :
    (g : Graph) (human_approved : Bool) → evaluate g human_approved ≡ spec g human_approved
unfolding evaluate
evaluate-eq-spec g h = ground (
  arith,
  find_critical-any_of false g.claims,
  finds_contradicted-any_of g.claims,
  gate_claims-closed g.claims [] false,
  finds_open_unknown-any_of g.unknowns,
)

-- The gate allows the action exactly when a human approved and the graph passes: some claim is
-- critical, none is rejected or contradicted, every critical one is supported, externally verified
-- or partially supported, and no critical unknown is open.
pub action_allowed-evaluate_iff :
    (g : Graph) (h : Bool) → ((evaluate g h).action_allowed ≡ true) ↔ ((h ≡ true) × Passes g)
action_allowed-evaluate_iff g h = rw evaluate-eq-spec (ground arith)
