-- ===== src/Memory/Graph.antt =====
-- apps/control-plane/internal/store/memory.go: `GetGraphByRun`, `GetGraphByDecision`, `graph`.
use epistemic_engine.Prelude.{
  String, Bool, none, some, List, ◌∷◌, ◌++◌, ◌&&◌, ◌==◌, map, any_of, select,
}
use epistemic_engine.Go.Effect.{not_found, Result, ok, err}
use epistemic_engine.Go.Map.{lookup, values, or_zero}
use epistemic_engine.Go.Sort.{sort_by}
use epistemic_engine.Domain.Run.{Run, zero_run, zero_decision}
use epistemic_engine.Domain.Claim.{
  Claim, Evidence, Relation, Assumption, Unknown, Verification, Graph,
}
use epistemic_engine.Memory.State.{Memory}

-- `objectIDs[id]`
abbrev has_id : String → List String → Bool
has_id id ids = any_of (λ i. i == id) ids

-- The six collections are sorted by identifier.
unfoldable pub graph : Run → Memory → Graph
graph r m =
    let d = or_zero zero_decision (lookup r.decision_id m.decisions) in
    let claims = select (λ (c : Claim). c.decision_id == d.id) (values m.claims) in
    let evidence = select (λ (e : Evidence). e.run_id == r.id) (values m.evidence) in
    let verifications =
      select (λ (v : Verification). v.decision_id == d.id) (values m.verifications) in
    let object_ids =
      d.id ∷ r.id ∷ map (λ (c : Claim). c.id) claims
      ++ map (λ (e : Evidence). e.id) evidence
      ++ map (λ (v : Verification). v.id) verifications in
    record {
      run = r;
      decision = d;
      claims = sort_by (λ (c : Claim). c.id) claims;
      evidence = sort_by (λ (e : Evidence). e.id) evidence;
      relations =
          sort_by (λ (x : Relation). x.id)
            (select (λ (x : Relation). has_id x.from_id object_ids && has_id x.to_id object_ids)
              (values m.relations));
      assumptions =
          sort_by (λ (a : Assumption). a.id)
            (select (λ (a : Assumption). a.decision_id == d.id) (values m.assumptions));
      unknowns =
          sort_by (λ (u : Unknown). u.id)
            (select (λ (u : Unknown). u.decision_id == d.id) (values m.unknowns));
      verifications = sort_by (λ (v : Verification). v.id) verifications;
    }

unfoldable pub get_graph_by_run : String → Memory → Result Graph
get_graph_by_run id m = elim (lookup id m.runs) [ none ↦ err not_found | some r ↦ ok (graph r m) ]

unfoldable pub get_graph_by_decision : String → Memory → Result Graph
get_graph_by_decision id m = elim (lookup id m.decisions) [
  | none ↦ err not_found
  | some d ↦ ok (graph (or_zero zero_run (lookup d.run_id m.runs)) m)
]
