-- ===== src/Gateway/Reply.antt =====
-- Handlers of apps/control-plane/internal/httpapi/protocol.go that write an error and return.
use epistemic_engine.Go.Effect.{Result, ok as fine, err as wrong, Exec}
use epistemic_engine.Service.System.{System}
use epistemic_engine.Gateway.Failures.{Failure}
use epistemic_engine.Gateway.State.{Gateway}
use epistemic_engine.Prelude.{Option, none, some}

pub data Reply (A : Type 0) : Type 0 where
  ok : A → Reply A
  fail : Failure → Reply A

abbrev pub Step : Type 0 → Type 0
Step A = Gateway → Reply A × Gateway

module _ {A : Type 0} where
  unfoldable pub give : A → Step A
  give a g = (ok a, g)

  -- `writeProtocolErrorCode(...)` and `return`
  unfoldable pub stop : Failure → Step A
  stop f g = (fail f, g)

  abbrev pub reply_of : Failure → Result A → Reply A
  reply_of f (fine a) = ok a
  reply_of f (wrong e) = fail f

  -- A call of `h.service`, with the failure that its error becomes.
  unfoldable pub call : Failure → Exec System A → Step A
  call f operation g = let (r, s) = operation g.system in (reply_of f r, record g { system = s })

  unfoldable pub need : Failure → Option A → Step A
  need f none g = (fail f, g)
  need f (some a) g = (ok a, g)

module _ {A B : Type 0} where
  abbrev pub continue : Reply A → (A → Step B) → Step B
  continue (ok a) next g = next a g
  continue (fail f) next g = (fail f, g)

  infixl 5 ◌>>=◌
  unfoldable pub ◌>>=◌ : Step A → (A → Step B) → Step B
  unfolding give stop call need
  ◌>>=◌ step next g = let (r, g') = step g in continue r next g'

  infixl 5 ◌>>◌
  abbrev pub ◌>>◌ : Step A → Step B → Step B
  step >> other = step >>= λ _. other
