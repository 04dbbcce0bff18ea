-- ===== src/Service/Ingest/Genuine.antt =====
-- What `IngestProject` of apps/control-plane/internal/service/integration.go lets through.
use mathlib.Core.Path.{subst}
use epistemic_engine.Prelude.{
  String, true, Option, none, some, ◌≡◌, refl, ap, ◌==◌, eq_iff, Bool-cases, Option-cases, inl, inr,
}
use epistemic_engine.Go.Effect.{Error, Result, ok, err, or_error, unauthorized}
use epistemic_engine.Go.Keeps.{
  Keeps, Keeps-bind, Keeps-bind_ensured, Keeps-guard, Keeps-pure, Keeps-raise, Ensures, Ensures-if,
  Ensures-bind, Ensures-lift, Ensures-pure, Keeps-Ensures,
}
use epistemic_engine.Go.Map.{Map, lookup, insert, lookup-insert}
use epistemic_engine.Go.Numbers.{Time, RawMessage}
use epistemic_engine.Domain.Connection.{ProjectConnection, PublishedCertificate}
use epistemic_engine.Protocol.Types.{Certificate, DecisionResult}
use epistemic_engine.Memory.Connections.Publishing.{OnPublications, save_project_ingest-Keeps}
use epistemic_engine.Service.System.{Env, System}
use epistemic_engine.Service.Ingest.{
  IngestInput, IngestEnv, is_complete, without_digest, check_digest, validate_portable_certificate,
  take_certificate, ingest_for, ingest_known, ingest_project, publication_of, is_present,
}
use epistemic_engine.Service.Invariant.Ingesting.{take_report-keeps, check_ai_system-keeps}
use epistemic_engine.Service.Invariant.Base.{
  OnRepo, Keeps-new_id, Keeps-repo_call, Keeps-read_clock,
}

-- A published certificate whose bytes hold a certificate that is complete and whose digest is the
-- hash of the rest, and whose status and permission are those of the result inside.
pub record IsGenuine (world : IngestEnv) (p : PublishedCertificate) : Type 0 where
  pub content : Certificate
  pub decoded : world.decode_certificate p.raw ≡ some content
  pub complete : is_complete content ≡ true
  pub digest : world.certificate_hash (without_digest content) ≡ some p.digest
  pub result : DecisionResult
  pub inside : world.decode_result content.result ≡ some result
  pub status : p.status ≡ result.status
  pub allowed : p.action_allowed ≡ result.action_allowed

pub record AllGenuine (world : IngestEnv) (ps : Map PublishedCertificate) : Type 0 where
  pub genuine : (id : String) (p : PublishedCertificate) → lookup id ps ≡ some p → IsGenuine world p

-- What the check of a certificate finds out.
record IsChecked (world : IngestEnv) (raw : RawMessage) (c : Certificate) : Type 0 where
  decoded : world.decode_certificate raw ≡ some c
  complete : is_complete c ≡ true
  digest : world.certificate_hash (without_digest c) ≡ some c.proof.digest

or_error-ok : {A : Type 0} (e : Error) (o : Option A) (a : A) → or_error e o ≡ ok a → o ≡ some a
or_error-ok e none a h = cc
or_error-ok e (some b) a h = cc h

module _ (world : IngestEnv) where
  check_digest-ok :
      (c : Certificate) (o : Option String) (a : Certificate)
      → check_digest world c o ≡ ok a
      → (c ≡ a) × (o ≡ some c.proof.digest)
  unfolding check_digest
  check_digest-ok c none a h = cc
  check_digest-ok c (some actual) a h = elim (Bool-cases (actual == c.proof.digest)) [
    | inl t ↦ (cc (rw (check_digest, t) at h), ap some ((eq_iff actual c.proof.digest).0 t))
    | inr f ↦ cc (rw (check_digest, f) at h)
  ]

  validate-IsChecked :
      (raw : RawMessage) (a : Certificate)
      → validate_portable_certificate world raw ≡ ok a
      → IsChecked world raw a
  unfolding validate_portable_certificate
  validate-IsChecked raw a h = elim (Option-cases (world.decode_certificate raw)) [
    | inl bad ↦ cc (rw (validate_portable_certificate, bad) at h)
    | inr (c, decoded) ↦ elim (Bool-cases (is_complete c)) [
      | inr f ↦ cc (rw (validate_portable_certificate, decoded, f) at h)
      | inl t ↦
          let found =
            check_digest-ok c (world.certificate_hash (without_digest c)) a
              (rw (validate_portable_certificate, decoded, t) at h) in
          subst (IsChecked world raw) found.0
            (record { decoded = decoded; complete = t; digest = found.1 })
    ]
  ]

  insert-AllGenuine :
      (p : PublishedCertificate) (ps : Map PublishedCertificate)
      → IsGenuine world p
      → AllGenuine world ps
      → AllGenuine world (insert p.id p ps)
  insert-AllGenuine p ps new h = record {
    genuine = λ id q e. elim (Bool-cases (p.id == id)) [
      | inl same ↦
          let found : p ≡ q = cc (rw (lookup-insert, same) at e) in
          subst (IsGenuine world) found new
      | inr other ↦ h.genuine id q (rw (lookup-insert, other) at e)
    ];
  }

  abbrev pub Held : System → Type 0
  Held = OnRepo (OnPublications (AllGenuine world))

  -- Of the certificate that an ingest takes, if any.
  record Taken (o : Option PublishedCertificate) : Type 0 where
    genuine : (p : PublishedCertificate) → o ≡ some p → IsGenuine world p

  Taken-none : Taken none
  Taken-none = record { genuine = λ p e. cc }

  module _ (env : Env) where
    take_certificate-Ensures :
        (c : ProjectConnection) (input : IngestInput) (now : Time)
        → Ensures Held (take_certificate world env c input now) Taken
    unfolding take_certificate
    take_certificate-Ensures c input now =
        Ensures-if Taken (is_present world input.certificate) _ _
          (Ensures-bind _ _ _ _ (Ensures-lift _) (λ content checked.
            Ensures-bind _ _ _ _ (Ensures-lift _) (λ result inside.
              Ensures-bind _ _ _ _ (Keeps-Ensures _ (Keeps-new_id env "pub")) (λ id u.
                let v = validate-IsChecked input.certificate content checked in
                let new : IsGenuine world (publication_of world env c input content result now id) =
                  record {
                    content = content;
                    decoded = v.decoded;
                    complete = v.complete;
                    digest = v.digest;
                    result = result;
                    inside = or_error-ok _ (world.decode_result content.result) result inside;
                    status = refl;
                    allowed = refl;
                  } in
                Ensures-pure Taken _
                  (record { genuine = λ p e. subst (IsGenuine world) (cc e) new })))))
          (Ensures-pure Taken none Taken-none)

    ingest_for-keeps :
        (input : IngestInput) (c : ProjectConnection) → Keeps Held (ingest_for world env input c)
    unfolding ingest_for
    ingest_for-keeps input c = Keeps-bind _ _ (Keeps-guard _ _) (λ u.
        Keeps-bind _ _ (Keeps-guard _ _) (λ u.
          Keeps-bind _ _ (check_ai_system-keeps world env c input) (λ u.
            Keeps-bind _ _ (Keeps-read_clock env) (λ now.
              Keeps-bind _ _ (take_report-keeps world env c input now) (λ report.
                Keeps-bind_ensured _ _ _ (take_certificate-Ensures c input now)
                  (λ certificate taken.
                    Keeps-bind _ _
                      (Keeps-repo_call _ (
                        save_project_ingest-Keeps (IsGenuine world) insert-AllGenuine _ _
                          taken.genuine))
                      (λ stored. Keeps-pure _)))))))

    ingest_known-keeps :
        (input : IngestInput) (r : Result ProjectConnection)
        → Keeps Held (ingest_known world env input r)
    unfolding ingest_known
    ingest_known-keeps input (ok c) = ingest_for-keeps input c
    ingest_known-keeps input (err e) = Keeps-raise unauthorized

    pub ingest_project-kept :
        (token : String) (input : IngestInput) (s : System)
        → Held s
        → Held (ingest_project world env token input s).1
    unfolding ingest_project
    ingest_project-kept token input s h = elim (Bool-cases (token == "")) [
      | inl t ↦ rw (ingest_project, t) h
      | inr f ↦ rw (ingest_project, f) ((ingest_known-keeps input _).at s h)
    ]
