-- ===== src/Service/System.antt =====
-- apps/control-plane/internal/service/service.go: `Service` with what it shares, and what it takes
-- from outside: the clock, random bytes, hashing, JSON, the analyzer and the runner.
use epistemic_engine.Prelude.{ℕ, suc, String, Option, none, some, List}
use epistemic_engine.Go.Effect.{Result, ok, Exec}
use epistemic_engine.Go.Numbers.{Time, RawMessage}
use epistemic_engine.Go.Text.{concat}
use epistemic_engine.Domain.Run.{Event, Run, Decision}
use epistemic_engine.Domain.Claim.{Verification, Analysis}
use epistemic_engine.Domain.Certificate.{Certificate}
use epistemic_engine.Memory.State.{Memory}
use epistemic_engine.Lifecycle
use epistemic_engine.Lifecycle.{Bus}

-- verification.Result
pub record Outcome : Type 0 where
  pub outcome : String
  pub artifact : RawMessage

-- The values that `publish` is called with.
pub data Payload : Type 0 where
  run : Run → Payload
  event : Event → Payload
  counts : ℕ → ℕ → ℕ → Payload
  plan : List Verification → Payload
  verification : Verification → Payload
  certificate : Certificate → Payload

pub record Env : Type 0 where
  pub now : ℕ → Time  -- the n-th reading of `s.now`
  pub random_hex : ℕ → String  -- the n-th 12 random bytes, in hexadecimal
  pub random_token : ℕ → String  -- the n-th 32 random bytes, in URL-safe base64
  pub sha256_hex : RawMessage → String  -- SHA-256, in hexadecimal
  pub marshal : Payload → Option RawMessage  -- `json.Marshal`, `none` on an error
  pub marshal_certificate : Certificate → Option RawMessage
  pub analyze : Run → Decision → Result Analysis  -- `s.analyzer.Analyze`
  pub execute : Verification → Result Outcome  -- `s.executor.Execute`

-- `drawn` and `readings` count the random identifiers and the readings of the clock so far.
pub record System : Type 0 where
  pub repo : Memory
  pub bus : Bus
  pub drawn : ℕ
  pub readings : ℕ

-- A call of a method of `s.repo`, and of one that only reads.
unfoldable pub repo_call : {A : Type 0} → Exec Memory A → Exec System A
repo_call f s = let (r, m) = f s.repo in (r, record s { repo = m })

unfoldable pub repo_read : {A : Type 0} → (Memory → Result A) → Exec System A
repo_read f s = (f s.repo, s)

-- `_ = call()`
unfoldable pub ignore : {A : Type 0} → Exec System A → Exec System (Unit {0})
ignore f s = let (r, s') = f s in (ok tt, s')

module _ (env : Env) where
  -- `s.now()`
  unfoldable pub read_clock : Exec System Time
  read_clock s = (ok (env.now s.readings), record s { readings = suc s.readings })

  unfoldable pub new_id : String → Exec System String
  new_id prefix s =
      (ok (concat prefix (concat "_" (env.random_hex s.drawn))), record s { drawn = suc s.drawn })

  -- `s.publish`: nothing where the value has no JSON.
  unfoldable pub publish : String → String → Payload → Exec System (Unit {0})
  publish run_id event_type value s = elim (env.marshal value) [
    | none ↦ (ok tt, s)
    | some bytes ↦ (
      ok tt,
      record s {
        bus =
            Lifecycle.publish
              (record {
                run_id = run_id;
                type = event_type;
                payload = bytes;
                occurred_at = env.now s.readings;
              })
              s.bus;
        readings = suc s.readings;
      },
    )
  ]
