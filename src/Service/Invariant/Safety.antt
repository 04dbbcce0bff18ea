-- ===== src/Service/Invariant/Safety.antt =====
-- What holds of the service of apps/control-plane/internal/service after any requests.
use epistemic_engine.Prelude.{String, List, some, ◌≡◌, []}
use epistemic_engine.Go.Map.{lookup}
use epistemic_engine.Go.Numbers.{RawMessage}
use epistemic_engine.Domain.Certificate.{Certificate}
use epistemic_engine.Memory.State.{new_memory}
use epistemic_engine.Service.System.{Env, System}
use epistemic_engine.Service.Planning.{Specification}
use epistemic_engine.Service.Ingest.{IngestEnv}
use epistemic_engine.Service.Invariant.Certificates.{AllIssued, AllIssued-repo, HasCertificate-repo}
use epistemic_engine.Service.Invariant.Verifications.{AllSound, AllSound-repo}
use epistemic_engine.Service.Invariant.Uniqueness.{Unique, Unique-repo}
use epistemic_engine.Service.Invariant.Reach.{Request, new_system, serve, serve-keeps}

pub empty_AllIssued : (env : Env) → AllIssued env []
unfolding lookup
empty_AllIssued env = record { issued = λ id c e. cc; keyed = λ id c e. cc }

empty_AllSound : (env : Env) → AllSound env new_memory
unfolding lookup
empty_AllSound env = record { sound = λ id v e. cc }

-- After any requests to a new system, in any order and failing or not, every stored certificate
-- stands under its own decision, names SHA-256, carries the digest of its content without the
-- proof, and allows its action only if a human approved and its claims pass the gate: some claim
-- is critical, none is rejected or contradicted, and every critical one is supported, externally
-- verified or partially supported.
pub serve-AllIssued :
    (env : Env) (json : Specification → RawMessage) (content : IngestEnv) (requests : List Request)
    → AllIssued env (serve env json content requests new_system).repo.certificates
serve-AllIssued env json content requests =
    (serve-keeps env json content (AllIssued-repo env) requests new_system
      (record { held = record { held = empty_AllIssued env } })).held.held

-- A certificate that a system stores for a decision is stored there unchanged after any further
-- requests, evaluations of the same decision with another approval among them.
pub serve-HasCertificate :
    (env : Env) (json : Specification → RawMessage) (content : IngestEnv) (requests : List Request)
    (s : System) (id : String) (c : Certificate)
    → lookup id s.repo.certificates ≡ some c
    → lookup id (serve env json content requests s).repo.certificates ≡ some c
serve-HasCertificate env json content requests s id c there =
    (serve-keeps env json content (HasCertificate-repo env id c) requests s
      (record { held = record { held = there } })).held.held

-- After any requests to a new system every stored verification with status "completed" was approved,
-- ran in the sandbox or in staging, has outcome "passed" or "failed", and has a non-empty artifact
-- with its hash.
pub serve-AllSound :
    (env : Env) (json : Specification → RawMessage) (content : IngestEnv) (requests : List Request)
    → AllSound env (serve env json content requests new_system).repo
serve-AllSound env json content requests =
    (serve-keeps env json content (AllSound-repo env) requests new_system
      (record { held = empty_AllSound env })).held

empty_Unique : Unique new_memory
unfolding lookup
empty_Unique = record {
  accounts = record { one = λ i j v w e. cc };
  projects = record { one = λ i j v w e. cc };
  connections = record { one = λ i j v w e. cc };
  keyed = λ id c e. cc;
}

-- After any requests to a new system, publications with a connection's token included, no two stored
-- accounts have the same slug, no two projects of an account have the same slug, and no project has
-- two active connections; every connection stands under its own identifier.
pub serve-Unique :
    (env : Env) (json : Specification → RawMessage) (content : IngestEnv) (requests : List Request)
    → Unique (serve env json content requests new_system).repo
serve-Unique env json content requests =
    (serve-keeps env json content (Unique-repo env) requests new_system
      (record { held = empty_Unique })).held
