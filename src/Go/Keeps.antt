-- ===== src/Go/Keeps.antt =====
-- Invariants of methods, one rule for each way to build one. No code of the repository is modelled
-- here.
use mathlib.Core.Path.{subst}
use epistemic_engine.Prelude.{Bool, true, false, ◌≡◌, refl, if◌then◌else◌}
use epistemic_engine.Go.Effect.{
  Error, Result, ok, err, Exec, pure, raise, lift, continue, ◌>>=◌, guard,
}

-- `call` keeps `P`, whether it returns a value or an error, and a value that it returns satisfies `Q`.
pub record Ensures {S A : Type 0} (P : S → Type 0) (call : Exec S A) (Q : A → Type 0) : Type 0 where
  pub kept : (s : S) → P s → P (call s).1
  pub returned : (s : S) → P s → (a : A) → (call s).0 ≡ ok a → Q a

-- `call` keeps `P`.
pub record Keeps {S A : Type 0} (P : S → Type 0) (call : Exec S A) : Type 0 where
  pub at : (s : S) → P s → P (call s).1

module _ {S A : Type 0} {P : S → Type 0} where
  pub Keeps-if :
      (b : Bool) (call n : Exec S A) → Keeps P call → Keeps P n → Keeps P (if b then call else n)
  Keeps-if true call n keep kn = keep
  Keeps-if false call n keep kn = kn

  pub Keeps-lift : (r : Result A) → Keeps P (lift r)
  unfolding lift
  Keeps-lift r = record { at = λ s before. before }

  pub Keeps-pure : (a : A) → Keeps P (pure a)
  unfolding pure
  Keeps-pure a = record { at = λ s before. before }

  pub Keeps-raise : (e : Error) → Keeps P (raise {A = A} e)
  unfolding raise
  Keeps-raise e = record { at = λ s before. before }

  pub Ensures-if :
      (Q : A → Type 0) (b : Bool) (call n : Exec S A)
      → Ensures P call Q
      → Ensures P n Q
      → Ensures P (if b then call else n) Q
  Ensures-if Q true call n first en = first
  Ensures-if Q false call n first en = en

  pub Ensures-Keeps : (call : Exec S A) (Q : A → Type 0) → Ensures P call Q → Keeps P call
  Ensures-Keeps call Q before = record { at = before.kept }

  pub Keeps-Ensures : (call : Exec S A) → Keeps P call → Ensures P call (λ a. Unit)
  Keeps-Ensures call before = record { kept = before.at; returned = λ s p a e. tt }

  pub Ensures-pure : (Q : A → Type 0) (a : A) → Q a → Ensures P (pure a) Q
  unfolding pure
  Ensures-pure Q a q = record {
    kept = λ s before. before;
    returned = λ s before b e. let same : a ≡ b = cc e in subst Q same q;
  }

  pub Ensures-lift : (r : Result A) → Ensures P (lift r) (λ a. r ≡ ok a)
  unfolding lift
  Ensures-lift r = record { kept = λ s before. before; returned = λ s before a e. e }

module _ {S : Type 0} {P : S → Type 0} where
  pub Keeps-guard : (b : Bool) (e : Error) → Keeps P (guard b e)
  unfolding guard
  Keeps-guard true e = record { at = λ s before. before }
  Keeps-guard false e = record { at = λ s before. before }

  pub Ensures-guard : (b : Bool) (e : Error) → Ensures P (guard b e) (λ u. b ≡ true)
  unfolding guard
  Ensures-guard true e = record { kept = λ s before. before; returned = λ s before a q. refl }
  Ensures-guard false e = record { kept = λ s before. before; returned = λ s before a q. cc }

module _ {S A B : Type 0} {P : S → Type 0} where
  continue-Keeps :
      (r : Result A) (next : A → Exec S B)
      → ((a : A) → r ≡ ok a → Keeps P (next a))
      → Keeps P (continue r next)
  continue-Keeps (ok a) next k = k a refl
  continue-Keeps (err e) next k = record { at = λ s before. before }

  continue-Ensures :
      (Q : B → Type 0) (r : Result A) (next : A → Exec S B)
      → ((a : A) → r ≡ ok a → Ensures P (next a) Q)
      → Ensures P (continue r next) Q
  continue-Ensures Q (ok a) next k = k a refl
  continue-Ensures Q (err e) next k = record {
    kept = λ s before. before;
    returned = λ s before a q. cc;
  }

  pub Keeps-bind :
      (call : Exec S A) (next : A → Exec S B)
      → Keeps P call
      → ((a : A) → Keeps P (next a))
      → Keeps P (call >>= next)
  unfolding ◌>>=◌
  Keeps-bind call next keep keeps = record {
    at = λ s before.
        let (r, s') = call s in (continue-Keeps r next (λ a _. keeps a)).at s' (keep.at s before);
  }

  -- The rest of the block may use what the first call ensures.
  pub Keeps-bind_ensured :
      (Q : A → Type 0) (call : Exec S A) (next : A → Exec S B)
      → Ensures P call Q
      → ((a : A) → Q a → Keeps P (next a))
      → Keeps P (call >>= next)
  unfolding ◌>>=◌
  Keeps-bind_ensured Q call next first keeps = record {
    at = λ s before.
        (continue-Keeps (call s).0 next (λ a e. keeps a (first.returned s before a e))).at
          (call s).1 (first.kept s before);
  }

  pub Ensures-bind :
      (Q : A → Type 0) (R : B → Type 0) (call : Exec S A) (next : A → Exec S B)
      → Ensures P call Q
      → ((a : A) → Q a → Ensures P (next a) R)
      → Ensures P (call >>= next) R
  unfolding ◌>>=◌
  Ensures-bind Q R call next first second = record {
    kept = λ s before.
        (continue-Keeps (call s).0 next
            (λ a e. Ensures-Keeps (next a) R (second a (first.returned s before a e)))).at
          (call s).1 (first.kept s before);
    returned = λ s before b e.
        (continue-Ensures R (call s).0 next
            (λ a q. second a (first.returned s before a q))).returned
          (call s).1 (first.kept s before) b e;
  }

pub ruleset keeps_rules = (Keeps-bind, Keeps-if, Keeps-guard, Keeps-lift, Keeps-raise, Keeps-pure)
