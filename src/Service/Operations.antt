-- ===== src/Service/Operations.antt =====
-- Single operations of apps/control-plane/internal/service/service.go, on their error paths and when
-- they are repeated.
use epistemic_engine.Prelude.{String, true, false, ◌≡◌, ◌≢◌, arith, eq_iff, ◌==◌, ◌||◌}
use epistemic_engine.Go.Effect.{Error, invalid, conflict, ok, err, ◌>>=◌}
use epistemic_engine.Go.Text.{or_default}
use epistemic_engine.Domain.Claim.{Verification}
use epistemic_engine.Memory.Verifications.{get_verification}
use epistemic_engine.Service.System.{Env, System, repo_read}
use epistemic_engine.Service.Execution.{ExecuteVerificationInput, execute_verification}

-- What `ExecuteVerification` refuses before it touches anything, in the order of its checks.
pub data Refusal (v : Verification) (input : ExecuteVerificationInput) : Error → Type 0 where
  done : v.status ≡ "completed" → Refusal v input (conflict "verification result is immutable")
  place :
      v.status ≢ "completed"
      → or_default input.environment v.environment ≢ "sandbox"
      → or_default input.environment v.environment ≢ "staging"
      → Refusal v input (invalid "verification environment must be sandbox or staging")
  approval :
      v.status ≢ "completed"
      → ((or_default input.environment v.environment == "sandbox"
            || or_default input.environment v.environment == "staging")
          ≡ true)
      → v.requires_approval ≡ true
      → input.approved ≡ false
      → Refusal v input
          (invalid "explicit human approval is required before verification execution")

-- A stored verification that is completed, or a request for another environment than sandbox and
-- staging, or without the approval that the verification requires, is refused with the error of the
-- first of these that applies, and the whole system stays as it was.
pub execute_verification_refused :
    (env : Env) (id : String) (input : ExecuteVerificationInput) (s : System) (v : Verification)
    (e : Error)
    → get_verification id s.repo ≡ ok v
    → Refusal v input e
    → execute_verification env id input s ≡ (err e, s)
unfolding execute_verification ◌>>=◌ repo_read
execute_verification_refused env id input s v e found (done h) =
    rw found (ground (arith, eq_iff v.status "completed"))
execute_verification_refused env id input s v e found (place h sandbox staging) =
    let environment = or_default input.environment v.environment in
    rw found (
      ground (
        arith,
        eq_iff v.status "completed",
        eq_iff environment "sandbox",
        eq_iff environment "staging",
      ))
execute_verification_refused env id input s v e found (approval h at required missing) =
    rw found (ground (arith, eq_iff v.status "completed"))
