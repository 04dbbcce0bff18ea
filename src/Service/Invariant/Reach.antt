-- ===== src/Service/Invariant/Reach.antt =====
-- Sequences of requests to the service of apps/control-plane/internal/service/service.go,
-- portfolio.go and integration.go. A request that fails leaves what it wrote before it failed.
use epistemic_engine.Prelude.{String, Bool, List, [], ◌∷◌}
use epistemic_engine.Go.Numbers.{RawMessage}
use epistemic_engine.Memory.State.{Memory, new_memory}
use epistemic_engine.Lifecycle.{new_bus}
use epistemic_engine.Service.System.{Env, System}
use epistemic_engine.Service.Runs as Runs
use epistemic_engine.Service.Analysis as Analysis
use epistemic_engine.Service.Planning as Planning
use epistemic_engine.Service.Planning.{Specification}
use epistemic_engine.Service.Execution as Execution
use epistemic_engine.Service.Evaluation as Evaluation
use epistemic_engine.Service.Portfolio as Portfolio
use epistemic_engine.Service.Connections as Connections
use epistemic_engine.Service.Ingest as Ingest
use epistemic_engine.Service.Invariant.Base.{RepoKeeps, OnRepo, IsIssued}
use epistemic_engine.Service.Invariant.Requests.{create_run-keeps, add_event-keeps, analyze-keeps}
use epistemic_engine.Service.Invariant.Outcomes.{
  plan-keeps, execute_verification-keeps, evaluate-keeps, Covers-IsIssued,
}
use epistemic_engine.Service.Invariant.Accounts.{
  create_account-keeps, create_project-keeps, create_ai_system-keeps,
  create_project_connection-keeps, revoke_project_connection-keeps,
}
use epistemic_engine.Service.Invariant.Ingesting.{ingest_project-keeps}

pub data Request : Type 0 where
  create_run : Runs.CreateRunInput → Request
  add_event : String → Runs.AddEventInput → Request
  analyze : String → Request
  plan : String → Request
  execute_verification : String → Execution.ExecuteVerificationInput → Request
  evaluate : String → Bool → Request
  create_account : Portfolio.CreateAccountInput → Request
  create_project : String → Portfolio.CreateProjectInput → Request
  create_ai_system : String → Portfolio.CreateAiSystemInput → Request
  create_project_connection : String → Connections.CreateConnectionInput → Request
  revoke_project_connection : String → Request
  ingest_project : String → Ingest.IngestInput → Request

abbrev pub new_system : System
new_system = record { repo = new_memory; bus = new_bus; drawn = 0; readings = 0 }

module _ (env : Env) (json : Specification → RawMessage) (content : Ingest.IngestEnv) where
  unfoldable pub handle : Request → System → System
  handle (create_run input) s = (Runs.create_run env input s).1
  handle (add_event run_id input) s = (Runs.add_event env run_id input s).1
  handle (analyze run_id) s = (Analysis.analyze env run_id s).1
  handle (plan decision_id) s = (Planning.plan env json decision_id s).1
  handle (execute_verification id input) s = (Execution.execute_verification env id input s).1
  handle (evaluate decision_id approved) s = (Evaluation.evaluate env decision_id approved s).1
  handle (create_account input) s = (Portfolio.create_account env input s).1
  handle (create_project account_id input) s = (Portfolio.create_project env account_id input s).1
  handle (create_ai_system project_id input) s =
      (Portfolio.create_ai_system env project_id input s).1
  handle (create_project_connection project_id input) s =
      (Connections.create_project_connection env project_id input s).1
  handle (revoke_project_connection id) s = (Connections.revoke_project_connection id s).1
  handle (ingest_project token input) s = (Ingest.ingest_project content env token input s).1

  unfoldable pub serve : List Request → System → System
  unfolding handle
  serve [] s = s
  serve (r ∷ rs) s = serve rs (handle r s)

module _ (env : Env) (json : Specification → RawMessage) (content : Ingest.IngestEnv)
    {P : Memory → Type 0} (repo : RepoKeeps env P (IsIssued env)) where
  handle-keeps : (r : Request) (s : System) → OnRepo P s → OnRepo P (handle env json content r s)
  unfolding handle
  handle-keeps (create_run input) = (create_run-keeps env repo input).at
  handle-keeps (add_event run_id input) = (add_event-keeps env repo run_id input).at
  handle-keeps (analyze run_id) = (analyze-keeps env repo run_id).at
  handle-keeps (plan decision_id) = (plan-keeps env repo json decision_id).at
  handle-keeps (execute_verification id input) = (execute_verification-keeps env repo id input).at
  handle-keeps (evaluate decision_id approved) =
      (evaluate-keeps env repo decision_id approved (Covers-IsIssued env approved)).at
  handle-keeps (create_account input) = (create_account-keeps env repo input).at
  handle-keeps (create_project account_id input) =
      (create_project-keeps env repo account_id input).at
  handle-keeps (create_ai_system project_id input) =
      (create_ai_system-keeps env repo project_id input).at
  handle-keeps (create_project_connection project_id input) =
      (create_project_connection-keeps env repo project_id input).at
  handle-keeps (revoke_project_connection id) = (revoke_project_connection-keeps env repo id).at
  handle-keeps (ingest_project token input) = (ingest_project-keeps content env repo token input).at

  pub serve-keeps :
      (rs : List Request) (s : System) → OnRepo P s → OnRepo P (serve env json content rs s)
  unfolding serve
  serve-keeps [] s h = h
  serve-keeps (r ∷ rs) s h = serve-keeps rs (handle env json content r s) (handle-keeps r s h)
