-- ===== src/Service/Ingest.antt =====
-- apps/control-plane/internal/service/integration.go: `IngestProject`, `validatePortableCertificate` and
-- `validReportStatus`. `encoding/json` and `epistemic.Hash` are taken from outside.
pub mod Genuine
pub mod Access
mod Examples
use epistemic_engine.Prelude.{
  String, Bool, true, false, not, Option, none, some, List, [], ◌∷◌, ◌&&◌, ◌||◌, ◌==◌, is_empty,
  any_of, if◌then◌else◌,
}
use epistemic_engine.Go.Effect.{
  Result, ok, err, invalid, unauthorized, Exec, ◌>>=◌, ◌>>◌, pure, raise, lift, guard, or_error,
}
use epistemic_engine.Go.Numbers.{ℤ, Time, RawMessage, time_is_zero}
use epistemic_engine.Go.Text.{is_blank, or_default, bytes_of}
use epistemic_engine.Domain.Connection.{
  ProjectConnection, ProjectReport, PublishedCertificate, ProjectIngest,
}
use epistemic_engine.Protocol.Types.{Certificate, DecisionResult}
use epistemic_engine.Memory.Portfolio.{get_ai_system}
use epistemic_engine.Memory.Connections.{get_connection_by_token_hash, save_project_ingest}
use epistemic_engine.Service.System.{Env, System, repo_call, repo_read, read_clock, new_id}
use epistemic_engine.Service.Connections.{token_digest}

pub record IngestContext : Type 0 where
  pub repository : String
  pub commit_sha : String
  pub branch : String
  pub workflow : String
  pub run_url : String

pub record IngestInput : Type 0 where
  pub external_id : String
  pub ai_system_id : String
  pub policy_version : String
  pub context : IngestContext
  pub report : RawMessage
  pub certificate : RawMessage

pub record IngestResult : Type 0 where
  pub connection_id : String
  pub project_id : String
  pub report_id : String
  pub certificate_id : String
  pub status : String

-- The members that are read of a report.
pub record ReportBody : Type 0 where
  pub tool : String
  pub status : String
  pub exit_code : ℤ
  pub summary : String

pub record IngestEnv : Type 0 where
  pub decode_report : RawMessage → Option ReportBody
  pub decode_certificate : RawMessage → Option Certificate
  pub decode_result : RawMessage → Option DecisionResult
  pub certificate_hash : Certificate → Option String
  pub is_null : RawMessage → Bool  -- `string(raw) == "null"`
  pub fallback : Time

-- `validReportStatus`
unfoldable pub valid_report_status : String → Bool
valid_report_status status =
    any_of (λ s. s == status) ("passed" ∷ "failed" ∷ "error" ∷ "pending" ∷ "indeterminate" ∷ [])

abbrev pub is_complete : Certificate → Bool
is_complete c =
    not (c.decision_id == "")
    && c.proof.algorithm == "SHA-256"
    && not (c.proof.digest == "")
    && not (time_is_zero c.issued_at)

abbrev pub without_digest : Certificate → Certificate
without_digest c = record c { proof = record c.proof { digest = "" } }

abbrev bad_certificate : Result Certificate
bad_certificate = err (invalid "invalid certificate")

module _ (world : IngestEnv) where
  unfoldable pub check_digest : Certificate → Option String → Result Certificate
  check_digest c none = bad_certificate
  check_digest c (some actual) = if actual == c.proof.digest then ok c else bad_certificate

  -- `validatePortableCertificate`, with the error that its caller makes of one.
  unfoldable pub validate_portable_certificate : RawMessage → Result Certificate
  unfolding check_digest
  validate_portable_certificate raw = elim (world.decode_certificate raw) [
    | none ↦ bad_certificate
    | some c ↦
        if is_complete c
        then check_digest c (world.certificate_hash (without_digest c))
        else bad_certificate
  ]

  abbrev pub is_present : RawMessage → Bool
  is_present raw = not (is_empty raw) && not (world.is_null raw)

module _ (world : IngestEnv) (env : Env) where
  abbrev pub report_of :
      ProjectConnection → IngestInput → ReportBody → Time → String → ProjectReport
  report_of connection input body now id = record {
    id = id;
    external_id = input.external_id;
    account_id = connection.account_id;
    project_id = connection.project_id;
    connection_id = connection.id;
    ai_system_id = input.ai_system_id;
    tool = or_default body.tool "project-quality";
    status = body.status;
    exit_code = body.exit_code;
    summary = body.summary;
    repository = input.context.repository;
    commit_sha = input.context.commit_sha;
    branch = input.context.branch;
    workflow = input.context.workflow;
    run_url = input.context.run_url;
    details = input.report;
    received_at = now;
  }

  -- `if len(input.Report) > 0 && string(input.Report) != "null" { ... }`
  unfoldable pub take_report :
      ProjectConnection → IngestInput → Time → Exec System (Option ProjectReport)
  unfolding valid_report_status
  take_report connection input now =
      if is_present world input.report
      then (do
        body ← lift (or_error (invalid "invalid report") (world.decode_report input.report))
        guard (valid_report_status body.status) (invalid "unsupported report status")
        id ← new_id env "rpt"
        pure (some (report_of connection input body now id)))
      else pure none

  abbrev pub publication_of :
      ProjectConnection
      → IngestInput
      → Certificate
      → DecisionResult
      → Time
      → String
      → PublishedCertificate
  publication_of connection input c result now id = record {
    id = id;
    external_id = input.external_id;
    account_id = connection.account_id;
    project_id = connection.project_id;
    connection_id = connection.id;
    ai_system_id = input.ai_system_id;
    decision_id = c.decision_id;
    run_id = result.context.run_id;
    status = result.status;
    action_allowed = result.action_allowed;
    policy_version = or_default input.policy_version "epistemic.dev/v0.1";
    digest = c.proof.digest;
    artifact_hashes = c.artifact_hashes;
    issued_at = c.issued_at;
    received_at = now;
    raw = input.certificate;
  }

  -- The same for the certificate.
  unfoldable pub take_certificate :
      ProjectConnection → IngestInput → Time → Exec System (Option PublishedCertificate)
  unfolding validate_portable_certificate
  take_certificate connection input now =
      if is_present world input.certificate
      then (do
        c ← lift (validate_portable_certificate world input.certificate)
        result ←
            lift (or_error (invalid "invalid certificate result") (world.decode_result c.result))
        id ← new_id env "pub"
        pure (some (publication_of connection input c result now id)))
      else pure none

  -- `if input.AISystemID != "" { ... }`
  unfoldable pub check_ai_system : ProjectConnection → IngestInput → Exec System (Unit {0})
  check_ai_system connection input = if input.ai_system_id == "" then pure tt else (do
    system ← repo_read (get_ai_system input.ai_system_id)
    guard (system.project_id == connection.project_id)
        (invalid "AI system does not belong to connected project"))

  abbrev pub report_id_of : Option ProjectReport → String
  report_id_of none = ""
  report_id_of (some r) = r.id

  abbrev pub certificate_id_of : Option PublishedCertificate → String
  certificate_id_of none = ""
  certificate_id_of (some c) = c.id

  -- Behind the look-up of the connection.
  unfoldable pub ingest_for : IngestInput → ProjectConnection → Exec System IngestResult
  unfolding take_report take_certificate check_ai_system
  ingest_for input connection = do
    guard (not (is_blank input.external_id)) (invalid "external_id is required for idempotency")
    guard (not (is_empty input.report && is_empty input.certificate))
        (invalid "report or certificate is required")
    check_ai_system connection input
    now ← read_clock env
    report ← take_report connection input now
    certificate ← take_certificate connection input now
    stored ← repo_call (
        save_project_ingest world.fallback
          (record { connection = connection; report = report; certificate = certificate }))
    pure (record {
      connection_id = connection.id;
      project_id = connection.project_id;
      report_id = report_id_of stored.report;
      certificate_id = certificate_id_of stored.certificate;
      status = "accepted";
    })

  unfoldable pub ingest_known : IngestInput → Result ProjectConnection → Exec System IngestResult
  unfolding ingest_for
  ingest_known input (ok connection) = ingest_for input connection
  ingest_known input (err e) = raise unauthorized

  -- `IngestProject`
  unfoldable pub ingest_project : String → IngestInput → Exec System IngestResult
  unfolding ingest_known token_digest
  ingest_project token input s =
      if token == ""
      then (err unauthorized, s)
      else ingest_known input (get_connection_by_token_hash (token_digest env token) s.repo) s
