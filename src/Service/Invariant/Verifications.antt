-- ===== src/Service/Invariant/Verifications.antt =====
-- The repository in memory (internal/store/memory.go) keeps its verifications sound: a completed one
-- has all that the service asks of a result.
use epistemic_engine.Prelude.{
  String, List, [], ◌∷◌, some, ◌≡◌, refl, arith, Option-cases, Bool-cases, inl, inr, ◌==◌, All,
}
use mathlib.Core.Path.{subst}
use epistemic_engine.Go.Effect.{Exec}
use epistemic_engine.Go.Keeps.{Keeps}
use epistemic_engine.Go.Map.{Map, lookup, insert, insert_all, lookup-insert}
use epistemic_engine.Domain.Claim.{Verification}
use epistemic_engine.Memory.State.{Memory}
use epistemic_engine.Memory.Runs.{create_run, add_event, save_analysis}
use epistemic_engine.Memory.Verifications.{
  save_verifications, update_verification, write_verification,
}
use epistemic_engine.Memory.Decisions.{save_decision, save_certificate}
use epistemic_engine.Memory.Portfolio.{create_account, create_project, create_ai_system}
use epistemic_engine.Memory.Connections.{
  create_project_connection, revoke_project_connection, save_project_ingest,
}
use epistemic_engine.Service.System.{Env}
use epistemic_engine.Service.Invariant.Base.{RepoKeeps, IsIssued, IsSound}

pub record AllSound (env : Env) (m : Memory) : Type 0 where
  pub sound : (id : String) (v : Verification) → lookup id m.verifications ≡ some v → IsSound env v

abbrev SoundMap : Env → Map Verification → Type 0
SoundMap env vs = (id : String) (v : Verification) → lookup id vs ≡ some v → IsSound env v

insert-SoundMap :
    (env : Env) (k : String) (new : Verification) (vs : Map Verification)
    → IsSound env new
    → SoundMap env vs
    → SoundMap env (insert k new vs)
insert-SoundMap env k new vs sound h id v e = elim (Bool-cases (k == id)) [
  | inl same ↦
      let found : new ≡ v = cc (rw (lookup-insert, same) at e) in subst (IsSound env) found sound
  | inr other ↦ h id v (rw (lookup-insert, other) at e)
]

insert_all-SoundMap :
    (env : Env) (new : List Verification) (vs : Map Verification)
    → All (IsSound env) new
    → SoundMap env vs
    → SoundMap env (insert_all (λ (v : Verification). v.id) new vs)
unfolding insert_all
insert_all-SoundMap env [] vs sound h = h
insert_all-SoundMap env (n ∷ ns) vs sound h =
    insert_all-SoundMap env ns (insert n.id n vs) sound.1 (insert-SoundMap env n.id n vs sound.0 h)

module _ {A : Type 0} (f : Exec Memory A) {env : Env} where
  frame : ((m : Memory) → (f m).1.verifications ≡ m.verifications) → Keeps (AllSound env) f
  frame same = record { at = λ m h. record { sound = λ id v e. h.sound id v (rw (same m) at e) } }

written_verifications :
    (v : Verification) (m : Memory)
    → (write_verification v m).verifications ≡ insert v.id v m.verifications
unfolding write_verification
written_verifications v m = ground arith

update_verification-AllSound :
    (env : Env) (v : Verification) → IsSound env v → Keeps (AllSound env) (update_verification v)
unfolding update_verification
update_verification-AllSound env v new = record {
  at = λ m h. elim (Option-cases (lookup v.id m.verifications)) [
    | inl missing ↦ rw (missing, update_verification) h
    | inr (old, there) ↦
        rw (there, update_verification)
          (record {
            sound =
                rw (written_verifications v m)
                  (insert-SoundMap env v.id v m.verifications new h.sound);
          })
  ];
}

pub AllSound-repo : (env : Env) → RepoKeeps env (AllSound env) (IsIssued env)
unfolding create_run add_event save_analysis save_verifications update_verification save_decision
    save_certificate create_account create_project create_ai_system create_project_connection
    revoke_project_connection save_project_ingest
AllSound-repo env = record {
  create_run = λ r d. frame (create_run r d) (λ m. refl);
  add_event = λ id e. frame (add_event id e) (λ m. ground arith);
  save_analysis = λ id a. frame (save_analysis id a) (λ m. ground arith);
  save_verifications = λ vs h. record {
    at = λ m old. record { sound = insert_all-SoundMap env vs m.verifications h old.sound };
  };
  update_verification = update_verification-AllSound env;
  save_decision = λ d. frame (save_decision d) (λ m. ground arith);
  save_certificate = λ c h. frame (save_certificate c) (λ m. ground arith);
  create_account = λ a. frame (create_account a) (λ m. ground arith);
  create_project = λ p. frame (create_project p) (λ m. ground arith);
  create_ai_system = λ s. frame (create_ai_system s) (λ m. ground arith);
  create_project_connection = λ c. frame (create_project_connection c) (λ m. ground arith);
  revoke_project_connection = λ id. frame (revoke_project_connection id) (λ m. ground arith);
  save_project_ingest = λ t i. frame (save_project_ingest t i) (λ m. ground arith);
}
