-- ===== src/Service/Portfolio.antt =====
-- apps/control-plane/internal/service/portfolio.go: `CreateAccount`, `CreateProject`,
-- `CreateAISystem`.
use epistemic_engine.Prelude.{String, not, List, ◌||◌, ◌==◌, none, if◌then◌else◌}
use epistemic_engine.Go.Effect.{invalid, Exec, ◌>>=◌, ◌>>◌, pure, guard}
use epistemic_engine.Go.Text.{is_blank, trim_space}
use epistemic_engine.Domain.Portfolio.{Account, Project, AiSystem}
use epistemic_engine.Memory.Portfolio as Repo
use epistemic_engine.Service.System.{Env, System, repo_call, repo_read, read_clock, new_id}
use epistemic_engine.Service.Slug.{slugify}

pub record CreateAccountInput : Type 0 where
  pub name : String
  pub slug : String

pub record CreateProjectInput : Type 0 where
  pub name : String
  pub slug : String
  pub repository : String
  pub owner : String

pub record CreateAiSystemInput : Type 0 where
  pub name : String
  pub provider : String
  pub model : String
  pub purpose : String
  pub data_classes : List String
  pub tools : List String
  pub owner : String

module _ (env : Env) where
  unfoldable pub create_account : CreateAccountInput → Exec System Account
  create_account input = do
    guard (not (is_blank input.name)) (invalid "account name is required")
    let slug = if input.slug == "" then slugify input.name else input.slug
    id ← new_id env "acc"
    now ← read_clock env
    let account : Account = record {
      id = id;
      name = trim_space input.name;
      slug = slugify slug;
      created_at = now;
    }
    guard (not (account.slug == "")) (invalid "account slug is invalid")
    repo_call (Repo.create_account account)
    pure account

  unfoldable pub create_project : String → CreateProjectInput → Exec System Project
  create_project account_id input = do
    guard (not (is_blank input.name)) (invalid "project name is required")
    owner ← repo_read (Repo.get_account account_id)
    let slug = if input.slug == "" then input.name else input.slug
    id ← new_id env "prj"
    now ← read_clock env
    let project : Project = record {
      id = id;
      account_id = account_id;
      name = trim_space input.name;
      slug = slugify slug;
      repository = trim_space input.repository;
      owner = trim_space input.owner;
      created_at = now;
    }
    guard (not (project.slug == "")) (invalid "project slug is invalid")
    repo_call (Repo.create_project project)
    pure project

  unfoldable pub create_ai_system : String → CreateAiSystemInput → Exec System AiSystem
  create_ai_system project_id input = do
    guard
        (not (
          is_blank input.name
          || is_blank input.provider
          || is_blank input.model
          || is_blank input.purpose))
        (invalid "AI system name, provider, model, and purpose are required")
    project ← repo_read (Repo.get_project project_id)
    now ← read_clock env
    id ← new_id env "ais"
    let system : AiSystem = record {
      id = id;
      account_id = project.account_id;
      project_id = project_id;
      name = trim_space input.name;
      provider = trim_space input.provider;
      model = trim_space input.model;
      purpose = trim_space input.purpose;
      data_classes = input.data_classes;
      tools = input.tools;
      owner = trim_space input.owner;
      status = "active";
      created_at = now;
      updated_at = now;
      last_used_at = none;
    }
    repo_call (Repo.create_ai_system system)
    pure system
