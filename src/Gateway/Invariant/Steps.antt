-- ===== src/Gateway/Invariant/Steps.antt =====
-- Invariants of the handlers of apps/control-plane/internal/httpapi/protocol.go, one rule for each way
-- to build one.
use epistemic_engine.Prelude.{Bool, true, false, Option, none, some, if◌then◌else◌, ◌≡◌, refl}
use epistemic_engine.Gateway.Failures.{Failure}
use epistemic_engine.Gateway.State.{Gateway}
use epistemic_engine.Gateway.Reply.{Reply, ok, fail, Step, give, stop, need, continue, ◌>>=◌}

-- `step` keeps `P`, whether it answers or fails.
pub record Stays {A : Type 0} (P : Gateway → Type 0) (step : Step A) : Type 0 where
  pub at : (g : Gateway) → P g → P (step g).1

module _ {A : Type 0} {P : Gateway → Type 0} where
  pub Stays-give : (a : A) → Stays P (give a)
  unfolding give
  Stays-give a = record { at = λ g p. p }

  pub Stays-stop : (f : Failure) → Stays P (stop {A = A} f)
  unfolding stop
  Stays-stop f = record { at = λ g p. p }

  pub Stays-need : (f : Failure) (found : Option A) → Stays P (need f found)
  unfolding need
  Stays-need f none = record { at = λ g p. p }
  Stays-need f (some a) = record { at = λ g p. p }

  pub Stays-read : (f : Gateway → A) → Stays P (λ g. give (f g) g)
  unfolding give
  Stays-read f = record { at = λ g p. p }

  pub Stays-if :
      (b : Bool) (step other : Step A)
      → Stays P step
      → Stays P other
      → Stays P (if b then step else other)
  Stays-if true step other s o = s
  Stays-if false step other s o = o

module _ {A B : Type 0} {P : Gateway → Type 0} where
  continue-Stays :
      (r : Reply A) (next : A → Step B)
      → ((a : A) → r ≡ ok a → Stays P (next a))
      → Stays P (continue r next)
  continue-Stays (ok a) next s = s a refl
  continue-Stays (fail f) next s = record { at = λ g p. p }

  pub Stays-bind :
      (step : Step A) (next : A → Step B)
      → Stays P step
      → ((a : A) → Stays P (next a))
      → Stays P (step >>= next)
  unfolding ◌>>=◌
  Stays-bind step next s n = record {
    at = λ g p. let (r, g') = step g in (continue-Stays r next (λ a e. n a)).at g' (s.at g p);
  }

  -- The rest of the block may use that the first step answered so.
  pub Stays-bind_answered :
      (step : Step A) (next : A → Step B) (Q : A → Type 0)
      → Stays P step
      → ((g : Gateway) → P g → (a : A) → (step g).0 ≡ ok a → Q a)
      → ((a : A) → Q a → Stays P (next a))
      → Stays P (step >>= next)
  unfolding ◌>>=◌
  Stays-bind_answered step next Q s answered n = record {
    at = λ g p.
        (continue-Stays (step g).0 next (λ a e. n a (answered g p a e))).at (step g).1 (s.at g p);
  }

pub ruleset stays_rules = (Stays-bind, Stays-if, Stays-give, Stays-stop, Stays-need, Stays-read)
