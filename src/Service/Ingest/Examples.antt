-- ===== src/Service/Ingest/Examples.antt =====
-- The theorems about `IngestProject` of apps/control-plane/internal/service/integration.go at concrete
-- requests.
use epistemic_engine.Prelude.{String, true, false, none, some, [], ◌∷◌, ◌≡◌, refl}
use epistemic_engine.Go.Effect.{err, unauthorized}
use epistemic_engine.Go.Map.{lookup, values}
use epistemic_engine.Domain.Connection.{ProjectConnection}
use epistemic_engine.Memory.State.{new_memory}
use epistemic_engine.Protocol.Types.{Certificate}
use epistemic_engine.Protocol.Provider.{zero_result}
use epistemic_engine.Service.System.{Env, System}
use epistemic_engine.Service.Invariant.Reach.{new_system}
use epistemic_engine.Service.Connections.{token_digest}
use epistemic_engine.Service.Ingest.{IngestInput, IngestEnv, ingest_project}
use epistemic_engine.Service.Ingest.Genuine.{AllGenuine}
use epistemic_engine.Service.Ingest.Access.{
  ingest_all, ingest_all-AllGenuine, ingest_project_refused,
}

abbrev env : Env
env = record {
  now = λ n. 5;
  random_hex = λ n. "1";
  random_token = λ n. "1";
  sha256_hex = λ bytes. "hash";
  marshal = λ p. none;
  marshal_certificate = λ c. none;
  analyze = λ run decision. err unauthorized;
  execute = λ v. err unauthorized;
}

abbrev certificate : Certificate
certificate = record {
  spec_version = "0.1";
  id = "proof-d";
  decision_id = "d";
  result = 123 ∷ 125 ∷ [];
  artifact_hashes = [];
  issued_at = 1;
  supersedes = "";
  proof = record { algorithm = "SHA-256"; digest = "digest" };
}

abbrev world : IngestEnv
world = record {
  decode_report = λ bytes. none;
  decode_certificate = λ bytes. some certificate;
  decode_result = λ bytes. some (record zero_result { status = "allow"; action_allowed = true });
  certificate_hash = λ c. some "digest";
  is_null = λ bytes. false;
  fallback = 0;
}

abbrev input : IngestInput
input = record {
  external_id = "x";
  ai_system_id = "";
  policy_version = "";
  context = record { repository = "r"; commit_sha = ""; branch = ""; workflow = ""; run_url = "" };
  report = [];
  certificate = 123 ∷ 125 ∷ [];
}

abbrev connection : String → ProjectConnection
connection status = record {
  id = "con";
  account_id = "a";
  project_id = "p";
  provider = "github-actions";
  repository = "r";
  status = status;
  token_hash = "hash";
  token_prefix = "epk_";
  created_at = 1;
  last_seen_at = none;
}

abbrev system : String → System
system status = record new_system {
  repo = record new_memory { connections = ("con", connection status) ∷ [] };
}

none_AllGenuine : AllGenuine world []
unfolding lookup
none_AllGenuine = record { genuine = λ id p e. cc }

ingest_all-AllGenuine_example :
    AllGenuine world
      (ingest_all env world
        (("epk_1", input) ∷ ("", input) ∷ [])
        (system "active")).repo.publications
ingest_all-AllGenuine_example =
    ingest_all-AllGenuine env world (("epk_1", input) ∷ ("", input) ∷ []) (system "active")
      none_AllGenuine

ingest_project_refused_example :
    ingest_project world env "epk_1" input (system "revoked") ≡ (err unauthorized, system "revoked")
unfolding values token_digest
ingest_project_refused_example =
    ingest_project_refused env world "epk_1" input (system "revoked") (refl, tt)
