-- ===== src/Memory/Connections.antt =====
-- apps/control-plane/internal/store/memory_integration.go: connections of projects, and what they
-- send. `fallback` is the clock that `SaveProjectIngest` reads, which only an ingest with neither a
-- report nor a certificate shows.
pub mod Publishing
use epistemic_engine.Prelude.{
  String, Bool, Option, none, some, List, [], ◌∷◌, ◌&&◌, ◌==◌, any_of, not, if◌then◌else◌,
}
use epistemic_engine.Go.Effect.{not_found, store_conflict, Result, ok, err, or_error, Exec}
use epistemic_engine.Go.Map.{Map, lookup, insert, values}
use epistemic_engine.Go.Numbers.{Time}
use epistemic_engine.Domain.Portfolio.{Project}
use epistemic_engine.Domain.Connection.{
  ProjectConnection, ProjectReport, PublishedCertificate, ProjectIngest,
}
use epistemic_engine.Memory.State.{Memory}

abbrev pub is_active : ProjectConnection → Bool
is_active c = c.status == "active"

-- `for _, existing := range values { if test { return existing } }`
unfoldable pub first_of {ℓ} : {A : Type ℓ} → (A → Bool) → List A → Option A
first_of p [] = none
first_of p (x ∷ xs) = let rest = first_of p xs in if p x then some x else rest

create_connection_in : ProjectConnection → Option Project → Exec Memory (Unit {0})
create_connection_in connection none m = (err not_found, m)
create_connection_in connection (some project) m =
    if not (project.account_id == connection.account_id)
    then (err not_found, m)
    else if any_of (λ (e : ProjectConnection). e.project_id == connection.project_id && is_active e)
        (values m.connections)
    then (err (store_conflict ""), m)
    else (ok tt, record m { connections = insert connection.id connection m.connections })

unfoldable pub create_project_connection : ProjectConnection → Exec Memory (Unit {0})
unfolding create_connection_in
create_project_connection connection m =
    create_connection_in connection (lookup connection.project_id m.projects) m

unfoldable pub get_connection_by_token_hash : String → Memory → Result ProjectConnection
unfolding first_of
get_connection_by_token_hash token_hash m = or_error not_found (
    first_of (λ (c : ProjectConnection). c.token_hash == token_hash && is_active c)
      (values m.connections))

unfoldable pub revoke_project_connection : String → Exec Memory ProjectConnection
revoke_project_connection id m = elim (lookup id m.connections) [
  | none ↦ (err not_found, m)
  | some c ↦
      let revoked = record c { status = "revoked" } in
      (ok revoked, record m { connections = insert id revoked m.connections })
]

-- The report of the ingest, or the one that the connection already sent under its external
-- identifier; and the reports afterwards.
store_report :
    ProjectConnection → ProjectReport → Map ProjectReport → ProjectReport × Map ProjectReport
unfolding first_of
store_report connection report reports =
    elim (first_of
      (λ (e : ProjectReport).
        e.connection_id == connection.id && e.external_id == report.external_id)
      (values reports)) [
        | some existing ↦ (existing, reports)
        | none ↦ (report, insert report.id report reports)
      ]

-- The same for the certificate, which the project's digest identifies.
store_publication :
    ProjectConnection
    → PublishedCertificate
    → Map PublishedCertificate
    → PublishedCertificate × Map PublishedCertificate
unfolding first_of
store_publication connection certificate publications =
    elim (first_of
      (λ (e : PublishedCertificate).
        e.project_id == connection.project_id && e.digest == certificate.digest)
      (values publications)) [
        | some existing ↦ (existing, publications)
        | none ↦ (certificate, insert certificate.id certificate publications)
      ]

ingest_report : ProjectConnection → Option ProjectReport → Memory → Option ProjectReport × Memory
unfolding store_report
ingest_report connection none m = (none, m)
ingest_report connection (some report) m =
    let (stored, reports) = store_report connection report m.reports in
    (some stored, record m { reports = reports })

ingest_certificate :
    ProjectConnection → Option PublishedCertificate → Memory → Option PublishedCertificate × Memory
unfolding store_publication
ingest_certificate connection none m = (none, m)
ingest_certificate connection (some certificate) m =
    let (stored, publications) = store_publication connection certificate m.publications in
    (some stored, record m { publications = publications })

-- `now`: the report's time, else the certificate's, else the clock.
seen_at : Time → Option ProjectReport → Option PublishedCertificate → Time
seen_at fallback (some report) certificate = report.received_at
seen_at fallback none (some certificate) = certificate.received_at
seen_at fallback none none = fallback

-- Behind the check that the connection is there and active.
ingest_into : Time → ProjectIngest → ProjectConnection → Exec Memory ProjectIngest
unfolding ingest_report ingest_certificate seen_at
ingest_into fallback ingest connection m =
    let now = seen_at fallback ingest.report ingest.certificate in
    let (report, m₁) = ingest_report connection ingest.report m in
    let (certificate, m₂) = ingest_certificate connection ingest.certificate m₁ in
    let seen = record connection { last_seen_at = some now } in
    (
      ok (record { connection = seen; report = report; certificate = certificate }),
      record m₂ { connections = insert connection.id seen m₂.connections },
    )

save_ingest_for : Time → ProjectIngest → Option ProjectConnection → Exec Memory ProjectIngest
unfolding ingest_into
save_ingest_for fallback ingest none m = (err not_found, m)
save_ingest_for fallback ingest (some connection) m =
    if not (is_active connection)
    then (err not_found, m)
    else ingest_into fallback ingest connection m

unfoldable pub save_project_ingest : Time → ProjectIngest → Exec Memory ProjectIngest
unfolding save_ingest_for
save_project_ingest fallback ingest m =
    save_ingest_for fallback ingest (lookup ingest.connection.id m.connections) m
