-- ===== src/Http/Errors.antt =====
-- `writeError` and `respond` of apps/control-plane/internal/httpapi/handler.go. The bodies of answers
-- are left out.
use epistemic_engine.Prelude.{ℕ}
use epistemic_engine.Go.Effect as Effect
use epistemic_engine.Go.Effect.{Error, Result, ok, err}

-- `writeError`: the status. Any other error is an internal one.
unfoldable pub status_of : Error → ℕ
status_of Effect.not_found = 404
status_of (Effect.invalid why) = 400
status_of (Effect.conflict why) = 409
status_of (Effect.store_conflict why) = 409
status_of Effect.unauthorized = 401
status_of (Effect.failure why) = 500

-- `respond`
unfoldable pub respond : {A : Type 0} → Result A → ℕ → ℕ
unfolding status_of
respond (ok a) status = status
respond (err e) status = status_of e
