-- ===== src/Memory/Connections/Publishing.antt =====
-- What `SaveProjectIngest` of apps/control-plane/internal/store/memory_integration.go does to the
-- published certificates.
use epistemic_engine.Prelude.{
  Option, none, some, ◌≡◌, refl, ◌&&◌, ◌==◌, Bool-cases, Option-cases, inl, inr,
}
use epistemic_engine.Go.Keeps.{Keeps}
use epistemic_engine.Go.Map.{Map, lookup, insert, values}
use epistemic_engine.Go.Numbers.{Time}
use epistemic_engine.Domain.Connection.{ProjectConnection, PublishedCertificate, ProjectIngest}
use epistemic_engine.Memory.State.{Memory}
use epistemic_engine.Memory.Connections.{
  is_active, first_of, store_publication, ingest_report, ingest_certificate, ingest_into,
  save_ingest_for, save_project_ingest,
}

-- A property of the published certificates alone.
pub record OnPublications (Q : Map PublishedCertificate → Type 0) (m : Memory) : Type 0 where
  pub held : Q m.publications

module _ {Q : Map PublishedCertificate → Type 0} (added : (p : PublishedCertificate) → Type 0)
    (inserted : (p : PublishedCertificate) (ps : Map PublishedCertificate)
      → added p
      → Q ps
      → Q (insert p.id p ps)) where
  store_publication-keeps :
      (c : ProjectConnection) (p : PublishedCertificate) (ps : Map PublishedCertificate)
      → added p
      → Q ps
      → Q (store_publication c p ps).1
  unfolding store_publication
  store_publication-keeps c p ps new h =
      elim (Option-cases (
        first_of
          (λ (e : PublishedCertificate). e.project_id == c.project_id && e.digest == p.digest)
          (values ps))) [
            | inl fresh ↦ rw (store_publication, fresh) (inserted p ps new h)
            | inr (old, there) ↦ rw (store_publication, there) h
          ]

  ingest_certificate-keeps :
      (c : ProjectConnection) (o : Option PublishedCertificate) (m : Memory)
      → ((p : PublishedCertificate) → o ≡ some p → added p)
      → Q m.publications
      → Q (ingest_certificate c o m).1.publications
  unfolding ingest_certificate
  ingest_certificate-keeps c none m new h = h
  ingest_certificate-keeps c (some p) m new h =
      store_publication-keeps c p m.publications (new p refl) h

  ingest_report-same :
      (c : ProjectConnection) (o : Option _) (m : Memory)
      → (ingest_report c o m).1.publications ≡ m.publications
  unfolding ingest_report
  ingest_report-same c none m = refl
  ingest_report-same c (some r) m = refl

  ingest_into-keeps :
      (t : Time) (ingest : ProjectIngest) (c : ProjectConnection) (m : Memory)
      → ((p : PublishedCertificate) → ingest.certificate ≡ some p → added p)
      → Q m.publications
      → Q (ingest_into t ingest c m).1.publications
  unfolding ingest_into
  ingest_into-keeps t ingest c m new h =
      ingest_certificate-keeps c ingest.certificate (ingest_report c ingest.report m).1 new
        (rw (ingest_report-same c ingest.report m) h)

  pub save_project_ingest-Keeps :
      (t : Time) (ingest : ProjectIngest)
      → ((p : PublishedCertificate) → ingest.certificate ≡ some p → added p)
      → Keeps (OnPublications Q) (save_project_ingest t ingest)
  unfolding save_project_ingest save_ingest_for
  save_project_ingest-Keeps t ingest new = record {
    at = λ m h. elim (Option-cases (lookup ingest.connection.id m.connections)) [
      | inl missing ↦ rw (save_project_ingest, missing) h
      | inr (c, there) ↦ elim (Bool-cases (is_active c)) [
        | inl active ↦
            rw (save_project_ingest, there, save_ingest_for, active)
              (record { held = ingest_into-keeps t ingest c m new h.held })
        | inr revoked ↦ rw (save_project_ingest, there, save_ingest_for, revoked) h
      ]
    ];
  }
