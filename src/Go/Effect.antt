-- ===== src/Go/Effect.antt =====
-- Go functions that return `(T, error)`, and methods that change the value behind their receiver.
-- The errors are the sentinels of store/store.go and service/service.go with the text that
-- `fmt.Errorf("%w: ...")` puts behind them, and any error of other code.
use epistemic_engine.Prelude.{String, Option, none, some, Bool, true, false}

pub data Error : Type 0 where
  not_found : Error  -- store.ErrNotFound
  store_conflict : String → Error  -- store.ErrConflict
  invalid : String → Error  -- service.ErrInvalid
  conflict : String → Error  -- service.ErrConflict
  unauthorized : Error  -- service.ErrUnauthorized
  failure : String → Error  -- errors.New, and errors of other packages

-- The value beside a non-nil error is not kept: no caller reads it.
pub data Result {ℓ} (A : Type ℓ) : Type ℓ where
  ok : A → Result A
  err : Error → Result A

-- A method on a value of type `S`. What it wrote before an error stays written.
abbrev pub Exec {ℓ} : Type ℓ → Type ℓ → Type ℓ
Exec S A = S → Result A × S

abbrev pub or_error {ℓ} : {A : Type ℓ} → Error → Option A → Result A
or_error e none = err e
or_error e (some a) = ok a

module _ {ℓ} {S A : Type ℓ} where
  unfoldable pub pure : A → Exec S A
  pure a s = (ok a, s)

  unfoldable pub raise : Error → Exec S A
  raise e s = (err e, s)

  unfoldable pub lift : Result A → Exec S A
  lift r s = (r, s)

module _ {S : Type 0} where
  -- `if !test { return ..., e }`
  unfoldable pub guard : Bool → Error → Exec S (Unit {0})
  guard true e s = (ok tt, s)
  guard false e s = (err e, s)

module _ {ℓ} {S A B : Type ℓ} where
  abbrev pub continue : Result A → (A → Exec S B) → Exec S B
  continue (ok a) next s = next a s
  continue (err e) next s = (err e, s)

  -- `if err != nil { return ..., err }` after the call `call`. Opening this opens the four above.
  infixl 5 ◌>>=◌
  unfoldable pub ◌>>=◌ : Exec S A → (A → Exec S B) → Exec S B
  unfolding pure raise lift guard
  ◌>>=◌ call next s = let (r, s') = call s in continue r next s'

  infixl 5 ◌>>◌
  abbrev pub ◌>>◌ : Exec S A → Exec S B → Exec S B
  call >> other = call >>= λ _. other
