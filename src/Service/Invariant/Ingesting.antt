-- ===== src/Service/Invariant/Ingesting.antt =====
-- `IngestProject` of apps/control-plane/internal/service/integration.go keeps what the repository keeps.
use epistemic_engine.Prelude.{String, Bool-cases, ◌==◌, inl, inr}
use epistemic_engine.Go.Effect.{Result, ok, err, unauthorized}
use epistemic_engine.Go.Keeps.{Keeps, Keeps-bind, Keeps-guard, Keeps-pure, Keeps-raise, keeps_rules}
use epistemic_engine.Go.Numbers.{Time}
use epistemic_engine.Domain.Connection.{ProjectConnection}
use epistemic_engine.Domain.Certificate.{Certificate}
use epistemic_engine.Memory.State.{Memory}
use epistemic_engine.Service.System.{Env, System}
use epistemic_engine.Service.Ingest.{
  IngestInput, IngestEnv, take_report, take_certificate, check_ai_system, ingest_for, ingest_known,
  ingest_project,
}
use epistemic_engine.Service.Invariant.Base.{
  RepoKeeps, OnRepo, service_rules, Keeps-repo_call, Keeps-read_clock,
}

module _ (content : IngestEnv) (env : Env) {P : Memory → Type 0} where
  pub take_report-keeps :
      (c : ProjectConnection) (input : IngestInput) (now : Time)
      → Keeps (OnRepo P) (take_report content env c input now)
  unfolding take_report
  take_report-keeps c input now = search (keeps_rules, service_rules) depth 12

  take_certificate-keeps :
      (c : ProjectConnection) (input : IngestInput) (now : Time)
      → Keeps (OnRepo P) (take_certificate content env c input now)
  unfolding take_certificate
  take_certificate-keeps c input now = search (keeps_rules, service_rules) depth 12

  pub check_ai_system-keeps :
      (c : ProjectConnection) (input : IngestInput)
      → Keeps (OnRepo P) (check_ai_system content env c input)
  unfolding check_ai_system
  check_ai_system-keeps c input = search (keeps_rules, service_rules)

module _ (content : IngestEnv) (env : Env) {P : Memory → Type 0} {Saved : Certificate → Type 0}
    (repo : RepoKeeps env P Saved) where
  ingest_for-keeps :
      (input : IngestInput) (c : ProjectConnection)
      → Keeps (OnRepo P) (ingest_for content env input c)
  unfolding ingest_for
  ingest_for-keeps input c = Keeps-bind _ _ (Keeps-guard _ _) (λ u.
      Keeps-bind _ _ (Keeps-guard _ _) (λ u.
        Keeps-bind _ _ (check_ai_system-keeps content env c input) (λ u.
          Keeps-bind _ _ (Keeps-read_clock env) (λ now.
            Keeps-bind _ _ (take_report-keeps content env c input now) (λ report.
              Keeps-bind _ _ (take_certificate-keeps content env c input now) (λ certificate.
                Keeps-bind _ _ (Keeps-repo_call _ (repo.save_project_ingest _ _))
                  (λ stored. Keeps-pure _)))))))

  ingest_known-keeps :
      (input : IngestInput) (r : Result ProjectConnection)
      → Keeps (OnRepo P) (ingest_known content env input r)
  unfolding ingest_known
  ingest_known-keeps input (ok c) = ingest_for-keeps input c
  ingest_known-keeps input (err e) = Keeps-raise unauthorized

  ingest_project-kept :
      (token : String) (input : IngestInput) (s : System)
      → OnRepo P s
      → OnRepo P (ingest_project content env token input s).1
  unfolding ingest_project
  ingest_project-kept token input s h = elim (Bool-cases (token == "")) [
    | inl t ↦ rw (ingest_project, t) h
    | inr f ↦ rw (ingest_project, f) ((ingest_known-keeps input _).at s h)
  ]

  pub ingest_project-keeps :
      (token : String) (input : IngestInput)
      → Keeps (OnRepo P) (ingest_project content env token input)
  ingest_project-keeps token input = record { at = ingest_project-kept token input }
