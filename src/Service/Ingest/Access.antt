-- ===== src/Service/Ingest/Access.antt =====
-- Who may send what with `IngestProject` of apps/control-plane/internal/service/integration.go.
use epistemic_engine.Prelude.{
  String, Bool, false, none, List, [], ◌∷◌, ◌≡◌, refl, ◌&&◌, ◌==◌, All, Bool-cases, inl, inr,
}
use epistemic_engine.Go.Effect.{err, unauthorized, raise}
use epistemic_engine.Go.Map.{values}
use epistemic_engine.Domain.Connection.{ProjectConnection}
use epistemic_engine.Memory.Connections.{is_active, first_of, get_connection_by_token_hash}
use epistemic_engine.Service.System.{Env, System}
use epistemic_engine.Service.Connections.{token_digest}
use epistemic_engine.Service.Ingest.{IngestInput, IngestEnv, ingest_known, ingest_project}
use epistemic_engine.Service.Ingest.Genuine.{AllGenuine, Held, ingest_project-kept}

first_of-none :
    {A : Type 0} (p : A → Bool) (xs : List A) → All (λ x. p x ≡ false) xs → first_of p xs ≡ none
unfolding first_of
first_of-none p [] h = refl
first_of-none p (x ∷ xs) h = rw (h.0) (first_of-none p xs h.1)

-- A token whose digest no active connection stores, a revoked one for example, is refused as
-- unauthorized, and the system stays as it was.
pub ingest_project_refused :
    (env : Env) (world : IngestEnv) (token : String) (input : IngestInput) (s : System)
    → All
        (λ (c : ProjectConnection). (c.token_hash == token_digest env token && is_active c) ≡ false)
        (values s.repo.connections)
    → ingest_project world env token input s ≡ (err unauthorized, s)
unfolding ingest_project ingest_known get_connection_by_token_hash raise
ingest_project_refused env world token input s h = elim (Bool-cases (token == "")) [
  | inl t ↦ rw (ingest_project, t) refl
  | inr f ↦
      rw
        (
          ingest_project,
          f,
          get_connection_by_token_hash,
          first_of-none _ (values s.repo.connections) h,
        )
        refl
]

module _ (env : Env) (world : IngestEnv) where
  -- Requests with their tokens, one after the other.
  unfoldable pub ingest_all : List (String × IngestInput) → System → System
  unfolding ingest_project
  ingest_all [] s = s
  ingest_all ((token, input) ∷ requests) s =
      ingest_all requests (ingest_project world env token input s).1

  ingest_all-kept :
      (requests : List (String × IngestInput)) (s : System)
      → Held world s
      → Held world (ingest_all requests s)
  unfolding ingest_all
  ingest_all-kept [] s h = h
  ingest_all-kept ((token, input) ∷ requests) s h =
      ingest_all-kept requests (ingest_project world env token input s).1
        (ingest_project-kept world env token input s h)

-- Whatever is sent to a system all of whose published certificates are genuine, with any tokens,
-- every certificate published afterwards is genuine too: its bytes hold a complete certificate whose
-- digest is the hash of the rest, and its status and permission are those of the result inside.
pub ingest_all-AllGenuine :
    (env : Env) (world : IngestEnv) (requests : List (String × IngestInput)) (s : System)
    → AllGenuine world s.repo.publications
    → AllGenuine world (ingest_all env world requests s).repo.publications
ingest_all-AllGenuine env world requests s h =
    (ingest_all-kept env world requests s (record { held = record { held = h } })).held.held
