-- ===== src/Service/Invariant/Issuing.antt =====
-- What `Evaluate` of apps/control-plane/internal/service/service.go returns, over a repository whose
-- certificates have a property that every certificate has that it issues.
use mathlib.Core.Path.{subst}
use epistemic_engine.Prelude.{String, Bool, some, ◌≡◌, Option-cases, inl, inr}
use epistemic_engine.Go.Effect.{Result, ok, err, pure}
use epistemic_engine.Go.Keeps.{Ensures, Keeps-Ensures, Ensures-bind, Ensures-lift, Ensures-pure}
use epistemic_engine.Go.Map.{lookup}
use epistemic_engine.Domain.Certificate.{Certificate}
use epistemic_engine.Memory.Decisions.{get_certificate}
use epistemic_engine.Service.System.{Env, System}
use epistemic_engine.Service.Evaluation.{issue, reuse_or_issue, evaluate}
use epistemic_engine.Service.Invariant.Base.{
  OnRepo, Keeps-repo_call, Keeps-repo_read, Keeps-read_clock, Keeps-publish,
}
use epistemic_engine.Service.Invariant.Certificates.{
  OnCertificates, AllCertificates, AllCertificates-repo,
}
use epistemic_engine.Service.Invariant.Outcomes.{Covers}

module _ (env : Env) (id : String) (approved : Bool) (Saved : Certificate → Type 0)
    (covers : Covers env approved Saved) where
  abbrev Sound : System → Type 0
  Sound = OnRepo (OnCertificates (AllCertificates Saved))

  issue-Ensures : Ensures Sound (issue env id approved) Saved
  unfolding issue
  issue-Ensures =
      let repo = AllCertificates-repo env Saved in
      Ensures-bind _ _ _ _ (Keeps-Ensures _ (Keeps-repo_read _)) (λ g u.
        Ensures-bind _ _ _ _ (Keeps-Ensures _ (Keeps-read_clock env)) (λ now u.
          Ensures-bind _ _ _ _ (Keeps-Ensures _ (Keeps-repo_call _ (repo.save_decision _))) (λ x u.
            Ensures-bind _ _ _ _ (Ensures-lift _) (λ digest e.
              let new = covers.saved g now digest e in
              Ensures-bind _ _ _ _
                (Keeps-Ensures _ (Keeps-repo_call _ (repo.save_certificate _ new)))
                (λ x u.
                  Ensures-bind _ _ _ _ (Keeps-Ensures _ (Keeps-publish env _ _ _))
                    (λ x u. Ensures-pure Saved _ new))))))

  reused :
      (s : System) (r : Result Certificate)
      → Sound s
      → ((c : Certificate) → r ≡ ok c → Saved c)
      → (c : Certificate) → (reuse_or_issue env id approved r s).0 ≡ ok c
      → Saved c
  unfolding reuse_or_issue pure
  reused s (ok old) sound found c e = found c e
  reused s (err x) sound found c e = issue-Ensures.returned s sound c e

  stored : (s : System) → Sound s → (c : Certificate) → get_certificate id s.repo ≡ ok c → Saved c
  unfolding get_certificate
  stored s sound c e = elim (Option-cases (lookup id s.repo.certificates)) [
    | inl missing ↦ cc (rw (get_certificate, missing) at e)
    | inr (old, there) ↦
        let same : old ≡ c = cc (rw (get_certificate, there) at e) in
        sound.held.held.each id c (subst (λ d. lookup id s.repo.certificates ≡ some d) same there)
  ]

  -- The property holds of the certificate, be it new or an earlier one.
  pub evaluate-Saved :
      (s : System) → Sound s → (c : Certificate) → (evaluate env id approved s).0 ≡ ok c → Saved c
  unfolding evaluate
  evaluate-Saved s sound = reused s (get_certificate id s.repo) sound (stored s sound)
