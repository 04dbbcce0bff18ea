-- ===== src/Memory/Examples.antt =====
-- The theorems about apps/control-plane/internal/store/memory.go at concrete contents of the maps.
use epistemic_engine.Prelude.{String, true, false, some, [], ◌∷◌, ◌≡◌, refl, All}
use epistemic_engine.Go.Effect.{ok}
use epistemic_engine.Go.Map.{lookup, insert, values}
use epistemic_engine.Go.Numbers.{pos, float_zero, float_one}
use epistemic_engine.Domain.Status.{ClaimState}
use epistemic_engine.Domain.Run.{Event, Run, zero_run}
use epistemic_engine.Domain.Claim.{Claim, Unknown, Verification, zero_claim}
use epistemic_engine.Memory.State.{Memory, new_memory}
use epistemic_engine.Memory.Runs.{add_event}
use epistemic_engine.Memory.Runs.Redelivery.{add_event-redelivered}
use epistemic_engine.Memory.Verifications.{update_verification}
use epistemic_engine.Memory.Verifications.Settling.{
  is_open, update_verification-passed, update_verification-failed,
}

abbrev event : String → Event
event id = record {
  id = id;
  external_id = "ci-1";
  sequence = pos 0;
  type = "tests.finished";
  source = "ci";
  correlation_id = "";
  occurred_at = 1;
  payload = [];
}

abbrev numbered : Event
numbered = record (event "e1") { sequence = pos 1 }

abbrev with_run : Run → Memory
with_run run = record new_memory { runs = ("r", run) ∷ [] }

abbrev empty_run : Run
empty_run = record zero_run { id = "r" }

abbrev taken : Memory
taken = with_run (record empty_run { events = numbered ∷ [] })

add_event-redelivered_example : add_event "r" (event "e2") taken ≡ (ok (numbered, false), taken)
unfolding add_event lookup insert
add_event-redelivered_example =
    add_event-redelivered "r" (event "e1") (event "e2") numbered (with_run empty_run) taken true
      (λ e. cc) refl refl

abbrev tested : Claim
tested = record zero_claim { id = "c"; decision_id = "d"; critical = true }

abbrev question : Unknown
question = record {
  id = "u";
  decision_id = "d";
  question = "Do the tests pass?";
  critical = true;
  resolved = false;
}

abbrev check : String → Verification
check outcome = record {
  id = "v";
  decision_id = "d";
  claim_id = "c";
  check = "Run the tests.";
  kind = "test";
  specification = [];
  environment = "sandbox";
  status = "completed";
  requires_approval = true;
  approved = true;
  approved_by = "reviewer";
  outcome = outcome;
  artifact = 123 ∷ 125 ∷ [];
  artifact_hash = "h";
  created_at = 1;
  executed_at = some 2;
}

abbrev checking : Memory
checking = record new_memory {
  claims = ("c", tested) ∷ [];
  unknowns = ("u", question) ∷ [];
  verifications = ("v", check "") ∷ [];
}

update_verification-passed_example :
    (lookup "v" (update_verification (check "passed") checking).1.verifications
      ≡ some (check "passed"))
    × (lookup "c" (update_verification (check "passed") checking).1.claims
        ≡ some (record tested {
          state = ClaimState.externally_verified;
          support = record tested.support {
            direct_verification_strength = float_one;
            value = float_one;
          };
        }))
    × All
        (λ u. is_open "d" u ≡ false)
        (values (update_verification (check "passed") checking).1.unknowns)
unfolding lookup
update_verification-passed_example =
    update_verification-passed (check "passed") (check "") tested checking refl refl refl refl

update_verification-failed_example :
    (lookup "v" (update_verification (check "failed") checking).1.verifications
      ≡ some (check "failed"))
    × (lookup "c" (update_verification (check "failed") checking).1.claims
        ≡ some (record tested {
          state = ClaimState.contradicted;
          support = record tested.support { contradiction_burden = float_one; value = float_zero };
        }))
    × ((update_verification (check "failed") checking).1.unknowns ≡ checking.unknowns)
unfolding lookup
update_verification-failed_example =
    update_verification-failed (check "failed") (check "") tested checking refl refl refl refl
