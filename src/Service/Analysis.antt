-- ===== src/Service/Analysis.antt =====
-- apps/control-plane/internal/service/service.go: `Analyze`, `Graph`.
use epistemic_engine.Prelude.{String, [], map, length, if◌then◌else◌}
use epistemic_engine.Go.Effect.{Exec, ◌>>=◌, ◌>>◌, pure, lift}
use epistemic_engine.Go.Numbers.{Time}
use epistemic_engine.Domain.Status.{is_analyzed}
use epistemic_engine.Domain.Run.{Run}
use epistemic_engine.Domain.Claim.{Graph, Analysis}
use epistemic_engine.Memory.Runs as Repo
use epistemic_engine.Memory.Graph.{get_graph_by_run}
use epistemic_engine.Service.System.{
  Env, System, Payload, repo_call, repo_read, read_clock, publish,
}
use epistemic_engine.Service.Renaming.{
  rename_evidence, rename_claims, rename_relations, rename_assumptions, rename_unknowns,
  rename_evidence_ids,
}

-- `s.Graph`
unfoldable pub graph : String → Exec System Graph
graph run_id = repo_read (get_graph_by_run run_id)

module _ (env : Env) where
  -- The analysis under new identifiers.
  unfoldable pub rename_analysis : Time → String → Analysis → Exec System Analysis
  rename_analysis now decision_id a = do
    evidence ← rename_evidence env now a.evidence []
    claims ← rename_claims env now decision_id evidence.0 a.claims a.relations evidence.1
    relations ← rename_relations env claims.2 claims.1
    assumptions ← rename_assumptions env decision_id claims.2 a.assumptions
    unknowns ← rename_unknowns env decision_id a.unknowns
    pure (record {
      claims = map (rename_evidence_ids claims.2) claims.0;
      evidence = evidence.0;
      relations = relations;
      assumptions = assumptions;
      unknowns = unknowns;
    })

  -- Behind the check of the run's status.
  unfoldable pub analyze_run : String → Run → Exec System Graph
  analyze_run run_id run = do
    before ← graph run_id
    found ← lift (env.analyze run before.decision)
    now ← read_clock env
    renamed ← rename_analysis now before.decision.id found
    repo_call (Repo.save_analysis run_id renamed)
    after ← graph run_id
    publish env run_id "analysis.completed"
        (Payload.counts (length after.claims) (length after.evidence) (length after.relations))
    pure after

  unfoldable pub analyze : String → Exec System Graph
  analyze run_id = do
    run ← repo_read (Repo.get_run run_id)
    if is_analyzed run.status then graph run_id else analyze_run run_id run
