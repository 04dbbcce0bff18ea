-- ===== src/Policy/Examples.antt =====
-- Runs of the gate of policy.go, and the theorems about it at concrete graphs.
use mathlib.Core.List.{Perm}
use mathlib.Core.List.Perm
use epistemic_engine.Prelude.{true, List, [], ◌∷◌, ◌≡◌, ◌↔◌, refl}
use epistemic_engine.Domain.Status.{ClaimState, Verdict}
use epistemic_engine.Domain.Run.{zero_run, zero_decision}
use epistemic_engine.Domain.Claim.{Claim, Graph, zero_claim}
use epistemic_engine.Policy.{evaluate}
use epistemic_engine.Policy.Laws.{Passes, spec, evaluate-eq-spec, action_allowed-evaluate_iff}
use epistemic_engine.Policy.Order.{evaluate-perm}

abbrev build : Claim
build = record zero_claim {
  id = "b";
  statement = "builds";
  critical = true;
  state = ClaimState.supported;
}

abbrev tests : Claim
tests = record zero_claim {
  id = "t";
  statement = "tests pass";
  critical = true;
  state = ClaimState.partially_supported;
}

abbrev privacy : Claim
privacy = record zero_claim {
  id = "p";
  statement = "no PII";
  critical = true;
  state = ClaimState.externally_verified;
}

abbrev graph_of : List Claim → Graph
graph_of cs = record {
  run = zero_run;
  decision = zero_decision;
  claims = cs;
  evidence = [];
  relations = [];
  assumptions = [];
  unknowns = [];
  verifications = [];
}

partial_run :
    (evaluate (graph_of (build ∷ tests ∷ [])) true).conditions
    ≡ "Resolve partial support: tests pass" ∷ []
unfolding evaluate
partial_run = refl

rejected_run :
    (evaluate (graph_of (record build { state = ClaimState.rejected } ∷ [])) true).verdict
    ≡ Verdict.rejected
unfolding evaluate
rejected_run = refl

evaluate-eq-spec_example :
    evaluate (graph_of (build ∷ tests ∷ privacy ∷ [])) true
    ≡ spec (graph_of (build ∷ tests ∷ privacy ∷ [])) true
evaluate-eq-spec_example = evaluate-eq-spec (graph_of (build ∷ tests ∷ privacy ∷ [])) true

action_allowed-evaluate_iff_example :
    ((evaluate (graph_of (build ∷ [])) true).action_allowed ≡ true)
    ↔ ((true ≡ true) × Passes (graph_of (build ∷ [])))
action_allowed-evaluate_iff_example = action_allowed-evaluate_iff (graph_of (build ∷ [])) true

evaluate-perm_example :
    ((evaluate (graph_of (build ∷ tests ∷ [])) true).verdict
      ≡ (evaluate (graph_of (tests ∷ build ∷ [])) true).verdict)
    × ((evaluate (graph_of (build ∷ tests ∷ [])) true).action_allowed
        ≡ (evaluate (graph_of (tests ∷ build ∷ [])) true).action_allowed)
    × Perm
        (evaluate (graph_of (build ∷ tests ∷ [])) true).conditions
        (evaluate (graph_of (tests ∷ build ∷ [])) true).conditions
evaluate-perm_example =
    evaluate-perm (graph_of (build ∷ tests ∷ [])) (graph_of (tests ∷ build ∷ [])) true
      (Perm.swap tests build []) (Perm.refl [])
