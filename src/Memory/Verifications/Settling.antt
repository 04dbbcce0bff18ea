-- ===== src/Memory/Verifications/Settling.antt =====
-- What `UpdateVerification` of apps/control-plane/internal/store/memory.go settles.
use mathlib.Core.Path.{subst}
use epistemic_engine.Prelude.{
  String, Bool, false, not, some, [], ◌∷◌, ◌&&◌, ◌≡◌, refl, arith, ◌==◌, All, Bool-cases, inl, inr,
}
use epistemic_engine.Go.Map.{Map, lookup, insert, values, lookup-insert_self}
use epistemic_engine.Domain.Status.{ClaimState}
use epistemic_engine.Go.Numbers.{float_zero, float_one}
use epistemic_engine.Domain.Claim.{Claim, Unknown, Verification}
use epistemic_engine.Memory.State.{Memory}
use epistemic_engine.Memory.Verifications.{
  update_verification, write_verification, apply_passed, apply_failed, passed_claim, failed_claim,
  resolve_unknowns,
}

-- A critical unknown of a decision that is not resolved.
abbrev pub is_open : String → Unknown → Bool
is_open decision_id u = u.decision_id == decision_id && u.critical && not u.resolved

resolve_unknowns_lem :
    (decision_id : String) (us : Map Unknown)
    → All (λ u. is_open decision_id u ≡ false) (values (resolve_unknowns decision_id us))
unfolding resolve_unknowns values
resolve_unknowns_lem decision_id [] = tt
resolve_unknowns_lem decision_id ((id, u) ∷ us) =
    elim (Bool-cases (u.decision_id == decision_id && u.critical)) [
      | inl t ↦ rw t (ground arith, resolve_unknowns_lem decision_id us)
      | inr f ↦ rw f (ground arith, resolve_unknowns_lem decision_id us)
    ]

abbrev with_result : Verification → Memory → Memory
with_result v m = record m { verifications = insert v.id v m.verifications }

module _ (v old : Verification) (m : Memory) (there : lookup v.id m.verifications ≡ some old) where
  update_verification-eq-passed :
      v.outcome ≡ "passed" → (update_verification v m).1 ≡ apply_passed v (with_result v m)
  unfolding update_verification write_verification
  update_verification-eq-passed passed = rw (update_verification, there, passed) refl

  update_verification-eq-failed :
      v.outcome ≡ "failed" → (update_verification v m).1 ≡ apply_failed v (with_result v m)
  unfolding update_verification write_verification
  update_verification-eq-failed failed = rw (update_verification, there, failed) refl

module _ (v : Verification) (c : Claim) (m : Memory) (claim : lookup v.claim_id m.claims ≡ some c)
    (same : c.id ≡ v.claim_id) where
  apply_passed-claim : lookup v.claim_id (apply_passed v m).claims ≡ some (passed_claim c)
  unfolding apply_passed passed_claim
  apply_passed-claim = rw claim (
      subst (λ id. lookup id (insert c.id (passed_claim c) m.claims) ≡ some (passed_claim c)) same
        (lookup-insert_self c.id (passed_claim c) m.claims))

  apply_failed-claim : lookup v.claim_id (apply_failed v m).claims ≡ some (failed_claim c)
  unfolding apply_failed failed_claim
  apply_failed-claim = rw claim (
      subst (λ id. lookup id (insert c.id (failed_claim c) m.claims) ≡ some (failed_claim c)) same
        (lookup-insert_self c.id (failed_claim c) m.claims))

-- A stored verification that is updated with outcome "passed", whose claim is stored under its own
-- identifier, is stored as given; its claim is externally verified, with direct verification
-- strength and support value one, and is otherwise as it was; and no critical unknown of its
-- decision is left open.
pub update_verification-passed :
    (v old : Verification) (c : Claim) (m : Memory)
    → lookup v.id m.verifications ≡ some old
    → v.outcome ≡ "passed"
    → lookup v.claim_id m.claims ≡ some c
    → c.id ≡ v.claim_id
    → (lookup v.id (update_verification v m).1.verifications ≡ some v)
      × (lookup v.claim_id (update_verification v m).1.claims
          ≡ some (record c {
            state = ClaimState.externally_verified;
            support = record c.support {
              direct_verification_strength = float_one;
              value = float_one;
            };
          }))
      × All (λ u. is_open v.decision_id u ≡ false) (values (update_verification v m).1.unknowns)
unfolding apply_passed passed_claim
update_verification-passed v old c m there passed claim same =
    rw (update_verification-eq-passed v old m there passed) (
      lookup-insert_self v.id v m.verifications,
      apply_passed-claim v c (with_result v m) claim same,
      resolve_unknowns_lem v.decision_id m.unknowns,
    )

-- A stored verification that is updated with outcome "failed", whose claim is stored under its own
-- identifier, is stored as given; its claim is contradicted, with contradiction burden one and
-- support value zero, and is otherwise as it was; and the unknowns stay as they were.
pub update_verification-failed :
    (v old : Verification) (c : Claim) (m : Memory)
    → lookup v.id m.verifications ≡ some old
    → v.outcome ≡ "failed"
    → lookup v.claim_id m.claims ≡ some c
    → c.id ≡ v.claim_id
    → (lookup v.id (update_verification v m).1.verifications ≡ some v)
      × (lookup v.claim_id (update_verification v m).1.claims
          ≡ some (record c {
            state = ClaimState.contradicted;
            support = record c.support { contradiction_burden = float_one; value = float_zero };
          }))
      × ((update_verification v m).1.unknowns ≡ m.unknowns)
unfolding apply_failed failed_claim
update_verification-failed v old c m there failed claim same =
    rw (update_verification-eq-failed v old m there failed) (
      lookup-insert_self v.id v m.verifications,
      apply_failed-claim v c (with_result v m) claim same,
      refl,
    )
