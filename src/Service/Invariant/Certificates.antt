-- ===== src/Service/Invariant/Certificates.antt =====
-- The repository in memory (internal/store/memory.go) keeps two properties of its certificates: each
-- is as the service issues it, and none is ever replaced.
use mathlib.Core.Path.{subst}
use epistemic_engine.Prelude.{
  String, some, ◌≡◌, refl, arith, eq_iff, Option-cases, Bool-cases, inl, inr, ◌==◌,
}
use epistemic_engine.Go.Effect.{Exec}
use epistemic_engine.Go.Keeps.{Keeps}
use epistemic_engine.Go.Map.{Map, lookup, insert, lookup-insert}
use epistemic_engine.Domain.Certificate.{Certificate}
use epistemic_engine.Memory.State.{Memory}
use epistemic_engine.Memory.Runs.{create_run, add_event, save_analysis}
use epistemic_engine.Memory.Verifications.{save_verifications, update_verification}
use epistemic_engine.Memory.Decisions.{save_decision, save_certificate}
use epistemic_engine.Memory.Portfolio.{create_account, create_project, create_ai_system}
use epistemic_engine.Memory.Connections.{
  create_project_connection, revoke_project_connection, save_project_ingest,
}
use epistemic_engine.Service.System.{Env}
use epistemic_engine.Service.Invariant.Base.{RepoKeeps, IsIssued}

-- A property of a memory that looks at its certificates alone.
pub record OnCertificates (Q : Map Certificate → Type 0) (m : Memory) : Type 0 where
  pub held : Q m.certificates

module _ {A : Type 0} (f : Exec Memory A) {Q : Map Certificate → Type 0} where
  frame : ((m : Memory) → (f m).1.certificates ≡ m.certificates) → Keeps (OnCertificates Q) f
  frame same = record { at = λ m h. record { held = rw (same m) h.held } }

module _ (env : Env) (Saved : Certificate → Type 0) (Q : Map Certificate → Type 0)
    (saved : (c : Certificate) → Saved c → Keeps (OnCertificates Q) (save_certificate c)) where
  certificate_repo : RepoKeeps env (OnCertificates Q) Saved
  unfolding create_run add_event save_analysis save_verifications update_verification save_decision
      create_account create_project create_ai_system create_project_connection
      revoke_project_connection save_project_ingest
  certificate_repo = record {
    create_run = λ r d. frame (create_run r d) (λ m. refl);
    add_event = λ id e. frame (add_event id e) (λ m. ground arith);
    save_analysis = λ id a. frame (save_analysis id a) (λ m. ground arith);
    save_verifications = λ vs h. frame (save_verifications vs) (λ m. refl);
    update_verification = λ v h. frame (update_verification v) (λ m. ground arith);
    save_decision = λ d. frame (save_decision d) (λ m. ground arith);
    save_certificate = saved;
    create_account = λ a. frame (create_account a) (λ m. ground arith);
    create_project = λ p. frame (create_project p) (λ m. ground arith);
    create_ai_system = λ s. frame (create_ai_system s) (λ m. ground arith);
    create_project_connection = λ c. frame (create_project_connection c) (λ m. ground arith);
    revoke_project_connection = λ id. frame (revoke_project_connection id) (λ m. ground arith);
    save_project_ingest = λ t i. frame (save_project_ingest t i) (λ m. ground arith);
  }

-- Every certificate is as the service issues one, and stands under its decision.
pub record AllIssued (env : Env) (certificates : Map Certificate) : Type 0 where
  pub issued : (id : String) (c : Certificate) → lookup id certificates ≡ some c → IsIssued env c
  pub keyed : (id : String) (c : Certificate) → lookup id certificates ≡ some c → c.decision_id ≡ id

insert-AllIssued :
    (env : Env) (c : Certificate) (cs : Map Certificate)
    → IsIssued env c
    → AllIssued env cs
    → AllIssued env (insert c.decision_id c cs)
insert-AllIssued env c cs new h = record {
  issued = λ id d e. elim (Bool-cases (c.decision_id == id)) [
    | inl same ↦
        let found : c ≡ d = cc (rw (lookup-insert, same) at e) in subst (IsIssued env) found new
    | inr other ↦ h.issued id d (rw (lookup-insert, other) at e)
  ];
  keyed = λ id d e. elim (Bool-cases (c.decision_id == id)) [
    | inl same ↦
        let found : c ≡ d = cc (rw (lookup-insert, same) at e) in
        cc (found, (eq_iff c.decision_id id).0 same)
    | inr other ↦ h.keyed id d (rw (lookup-insert, other) at e)
  ];
}

save_certificate-AllIssued :
    (env : Env) (c : Certificate)
    → IsIssued env c
    → Keeps (OnCertificates (AllIssued env)) (save_certificate c)
unfolding save_certificate
save_certificate-AllIssued env c new = record {
  at = λ m h. elim (Option-cases (lookup c.decision_id m.certificates)) [
    | inl free ↦
        rw (free, save_certificate)
          (record { held = insert-AllIssued env c m.certificates new h.held })
    | inr (old, taken) ↦ rw (taken, save_certificate) h
  ];
}

-- The certificate of one decision.
abbrev pub HasCertificate : String → Certificate → Map Certificate → Type 0
HasCertificate id c certificates = lookup id certificates ≡ some c

save_certificate-HasCertificate :
    (id : String) (old c : Certificate)
    → Keeps (OnCertificates (HasCertificate id old)) (save_certificate c)
unfolding save_certificate
save_certificate-HasCertificate id old c = record {
  at = λ m h. record {
    held =
        ground
          (arith, h.held, lookup-insert c.decision_id id c m.certificates, eq_iff c.decision_id id);
  };
}

pub AllIssued-repo : (env : Env) → RepoKeeps env (OnCertificates (AllIssued env)) (IsIssued env)
AllIssued-repo env =
    certificate_repo env (IsIssued env) (AllIssued env) (save_certificate-AllIssued env)

pub HasCertificate-repo :
    (env : Env) (id : String) (old : Certificate)
    → RepoKeeps env (OnCertificates (HasCertificate id old)) (IsIssued env)
HasCertificate-repo env id old =
    certificate_repo env (IsIssued env) (HasCertificate id old)
      (λ c new. save_certificate-HasCertificate id old c)

-- Every certificate has a property.
pub record AllCertificates (Saved : Certificate → Type 0) (certificates : Map Certificate)
    : Type 0 where
  pub each : (id : String) (c : Certificate) → lookup id certificates ≡ some c → Saved c

insert-AllCertificates :
    (Saved : Certificate → Type 0) (c : Certificate) (cs : Map Certificate)
    → Saved c
    → AllCertificates Saved cs
    → AllCertificates Saved (insert c.decision_id c cs)
insert-AllCertificates Saved c cs new h = record {
  each = λ id d e. elim (Bool-cases (c.decision_id == id)) [
    | inl same ↦ let found : c ≡ d = cc (rw (lookup-insert, same) at e) in subst Saved found new
    | inr other ↦ h.each id d (rw (lookup-insert, other) at e)
  ];
}

save_certificate-AllCertificates :
    (Saved : Certificate → Type 0) (c : Certificate)
    → Saved c
    → Keeps (OnCertificates (AllCertificates Saved)) (save_certificate c)
unfolding save_certificate
save_certificate-AllCertificates Saved c new = record {
  at = λ m h. elim (Option-cases (lookup c.decision_id m.certificates)) [
    | inl free ↦
        rw (free, save_certificate)
          (record { held = insert-AllCertificates Saved c m.certificates new h.held })
    | inr (old, taken) ↦ rw (taken, save_certificate) h
  ];
}

pub AllCertificates-repo :
    (env : Env) (Saved : Certificate → Type 0)
    → RepoKeeps env (OnCertificates (AllCertificates Saved)) Saved
AllCertificates-repo env Saved =
    certificate_repo env Saved (AllCertificates Saved) (save_certificate-AllCertificates Saved)
