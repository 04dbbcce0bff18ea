-- ===== src/Service/Invariant/Accounts.antt =====
-- The operations of apps/control-plane/internal/service/portfolio.go and integration.go keep what
-- the repository keeps.
use epistemic_engine.Prelude.{String}
use epistemic_engine.Go.Keeps.{Keeps, keeps_rules}
use epistemic_engine.Domain.Certificate.{Certificate}
use epistemic_engine.Memory.State.{Memory}
use epistemic_engine.Service.System.{Env}
use epistemic_engine.Service.Portfolio.{
  CreateAccountInput, CreateProjectInput, CreateAiSystemInput, create_account, create_project,
  create_ai_system,
}
use epistemic_engine.Service.Connections.{
  CreateConnectionInput, create_project_connection, new_ingest_token, revoke_project_connection,
}
use epistemic_engine.Service.Invariant.Base.{RepoKeeps, OnRepo, service_rules}

module _ (env : Env) {P : Memory → Type 0} {Saved : Certificate → Type 0}
    (repo : RepoKeeps env P Saved) where
  pub create_account-keeps :
      (input : CreateAccountInput) → Keeps (OnRepo P) (create_account env input)
  unfolding create_account
  create_account-keeps input = search (keeps_rules, service_rules, repo.create_account) depth 12

  pub create_project-keeps :
      (account_id : String) (input : CreateProjectInput)
      → Keeps (OnRepo P) (create_project env account_id input)
  unfolding create_project
  create_project-keeps account_id input =
      search (keeps_rules, service_rules, repo.create_project) depth 14

  pub create_ai_system-keeps :
      (project_id : String) (input : CreateAiSystemInput)
      → Keeps (OnRepo P) (create_ai_system env project_id input)
  unfolding create_ai_system
  create_ai_system-keeps project_id input =
      search (keeps_rules, service_rules, repo.create_ai_system) depth 14

  new_ingest_token-keeps : Keeps (OnRepo P) (new_ingest_token env)
  unfolding new_ingest_token
  new_ingest_token-keeps = record { at = λ s h. record { held = h.held } }

  pub create_project_connection-keeps :
      (project_id : String) (input : CreateConnectionInput)
      → Keeps (OnRepo P) (create_project_connection env project_id input)
  unfolding create_project_connection
  create_project_connection-keeps project_id input =
      search (keeps_rules, service_rules, new_ingest_token-keeps, repo.create_project_connection)
        depth 16

  pub revoke_project_connection-keeps :
      (id : String) → Keeps (OnRepo P) (revoke_project_connection id)
  unfolding revoke_project_connection
  revoke_project_connection-keeps id = search (service_rules, repo.revoke_project_connection)
