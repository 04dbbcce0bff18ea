-- ===== src/Memory/Verifications.antt =====
-- apps/control-plane/internal/store/memory.go: `SaveVerifications`, `GetVerification`,
-- `UpdateVerification`.
pub mod Settling
use epistemic_engine.Prelude.{String, true, none, some, List, [], ◌∷◌, ◌&&◌, ◌==◌, if◌then◌else◌}
use epistemic_engine.Go.Effect.{not_found, Result, ok, err, or_error, Exec}
use epistemic_engine.Go.Map.{Map, lookup, insert, or_zero, insert_all}
use epistemic_engine.Go.Numbers.{float_zero, float_one}
use epistemic_engine.Go.Text.{concat}
use epistemic_engine.Domain.Status.{ClaimState, RelationType}
use epistemic_engine.Domain.Claim.{Claim, Relation, Unknown, Verification, zero_claim}
use epistemic_engine.Memory.State.{Memory}

unfoldable pub save_verifications : List Verification → Exec Memory (Unit {0})
unfolding insert_all
save_verifications vs m =
    (ok tt, record m { verifications = insert_all (λ (v : Verification). v.id) vs m.verifications })

unfoldable pub get_verification : String → Memory → Result Verification
get_verification id m = or_error not_found (lookup id m.verifications)

-- The claim that a passed, and that a failed verification leaves.
unfoldable pub passed_claim : Claim → Claim
passed_claim c = record c {
  state = ClaimState.externally_verified;
  support = record c.support { direct_verification_strength = float_one; value = float_one };
}

unfoldable pub failed_claim : Claim → Claim
failed_claim c = record c {
  state = ClaimState.contradicted;
  support = record c.support { contradiction_burden = float_one; value = float_zero };
}

unfoldable pub verified_relation : Claim → Verification → String → Relation
verified_relation c v text = record {
  id = concat "rel_verified_" v.id;
  from_id = c.id;
  to_id = v.id;
  type = RelationType.verified_by;
  rationale = concat text v.artifact_hash;
}

-- The loop over `m.unknowns`.
unfoldable pub resolve_unknowns : String → Map Unknown → Map Unknown
resolve_unknowns decision_id [] = []
resolve_unknowns decision_id ((id, u) ∷ us) =
    let rest = resolve_unknowns decision_id us in
    if u.decision_id == decision_id && u.critical
    then (id, record u { resolved = true }) ∷ rest
    else (id, u) ∷ rest

-- `if v.Outcome == "passed" { ... }`
unfoldable pub apply_passed : Verification → Memory → Memory
unfolding passed_claim verified_relation resolve_unknowns
apply_passed v m =
    let c = passed_claim (or_zero zero_claim (lookup v.claim_id m.claims)) in
    let r = verified_relation c v "Controlled verification passed; artifact " in
    record m {
      claims = insert c.id c m.claims;
      relations = insert r.id r m.relations;
      unknowns = resolve_unknowns v.decision_id m.unknowns;
    }

-- `if v.Outcome == "failed" { ... }`
unfoldable pub apply_failed : Verification → Memory → Memory
unfolding failed_claim verified_relation
apply_failed v m =
    let c = failed_claim (or_zero zero_claim (lookup v.claim_id m.claims)) in
    let r = verified_relation c v "Controlled verification failed; artifact " in
    record m { claims = insert c.id c m.claims; relations = insert r.id r m.relations }

unfoldable pub write_verification : Verification → Memory → Memory
unfolding apply_passed apply_failed
write_verification v m =
    let written = record m { verifications = insert v.id v m.verifications } in
    let passed = if v.outcome == "passed" then apply_passed v written else written in
    if v.outcome == "failed" then apply_failed v passed else passed

unfoldable pub update_verification : Verification → Exec Memory (Unit {0})
unfolding write_verification
update_verification v m = elim (lookup v.id m.verifications) [
  | none ↦ (err not_found, m)
  | some old ↦ (ok tt, write_verification v m)
]
