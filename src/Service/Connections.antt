-- ===== src/Service/Connections.antt =====
-- apps/control-plane/internal/service/integration.go: `CreateProjectConnection`,
-- `RevokeProjectConnection`, and the digest under which a token is stored. The workflow text that
-- the code returns beside the connection is not modelled.
use Prim.Native.String.{slice}
use epistemic_engine.Prelude.{suc, String, not, ◌==◌, none}
use epistemic_engine.Go.Effect.{ok, invalid, Exec, ◌>>=◌, ◌>>◌, pure, guard}
use epistemic_engine.Go.Text.{is_blank, trim_space, or_default, concat, bytes_of}
use epistemic_engine.Domain.Connection.{ProjectConnection}
use epistemic_engine.Memory.Portfolio.{get_project}
use epistemic_engine.Memory.Connections as Repo
use epistemic_engine.Service.System.{Env, System, repo_call, repo_read, read_clock, new_id}

pub record CreateConnectionInput : Type 0 where
  pub provider : String
  pub repository : String
  pub endpoint : String

pub record CreateConnectionResult : Type 0 where
  pub connection : ProjectConnection
  pub token : String

-- `s.RevokeProjectConnection`
unfoldable pub revoke_project_connection : String → Exec System ProjectConnection
revoke_project_connection id = repo_call (Repo.revoke_project_connection id)

module _ (env : Env) where
  -- `tokenDigest`
  unfoldable pub token_digest : String → String
  token_digest token = env.sha256_hex (bytes_of token)

  -- `newIngestToken`
  unfoldable pub new_ingest_token : Exec System String
  new_ingest_token s =
      (ok (concat "epk_" (env.random_token s.drawn)), record s { drawn = suc s.drawn })

  unfoldable pub create_project_connection :
      String → CreateConnectionInput → Exec System CreateConnectionResult
  create_project_connection project_id input = do
    project ← repo_read (get_project project_id)
    let provider = or_default input.provider "github-actions"
    guard (provider == "github-actions") (invalid "only github-actions connections are supported")
    let repository = or_default input.repository project.repository
    guard (not (is_blank repository)) (invalid "repository is required")
    token ← new_ingest_token
    now ← read_clock env
    id ← new_id env "con"
    let connection : ProjectConnection = record {
      id = id;
      account_id = project.account_id;
      project_id = project.id;
      provider = provider;
      repository = trim_space repository;
      status = "active";
      token_hash = token_digest token;
      token_prefix = slice token 0 12;
      created_at = now;
      last_seen_at = none;
    }
    repo_call (Repo.create_project_connection connection)
    pure (record { connection = connection; token = token })
