-- ===== src/Relay/Retry.antt =====
-- `retry` and `retryProvider` of cmd/epistemic-relay/main.go. `cancelled` says whether the context ends
-- in the wait after an attempt, and with which error.
use epistemic_engine.Prelude.{
  ℕ, zero, suc, ◌<◌, Option, none, some, ◌≡◌, ◌≢◌, refl, arith, Option-cases, inl, inr,
}
use epistemic_engine.Protocol.Types.{DecisionRequest, DecisionResult}
use epistemic_engine.Protocol.Provider.{Provider, Failure, zero_result}

abbrev pub Operation : Type 0 → Type 0
Operation S = S → Option Failure × S

module _ {S : Type 0} (cancelled : ℕ → Option Failure) (operation : Operation S) where
  -- The loop from an attempt on, with the attempts left and the error so far.
  unfoldable pub retry_from : (left : ℕ) → (attempt : ℕ) → Option Failure → S → Option Failure × S
  retry_from zero attempt last s = (last, s)
  retry_from (suc left) attempt last s =
      let (error, s') = operation s in
      elim error [
        | none ↦ (none, s')
        | some x ↦ elim (cancelled attempt) [
          | some y ↦ (some y, s')
          | none ↦ retry_from left (suc attempt) (some x) s'
        ]
      ]

  unfoldable pub retry : ℕ → S → Option Failure × S
  unfolding retry_from
  retry attempts s = retry_from attempts 0 none s

  -- The state after a number of calls.
  unfoldable pub calls : ℕ → S → S
  calls zero s = s
  calls (suc n) s = calls n (operation s).1

  -- The first calls, this many, return errors, and no wait behind them is cut short.
  unfoldable pub FailFirst : (count : ℕ) → (attempt : ℕ) → S → Type 0
  FailFirst zero attempt s = Unit
  FailFirst (suc n) attempt s =
      ((operation s).0 ≢ none)
      × (cancelled attempt ≡ none)
      × FailFirst n (suc attempt) (operation s).1

  retry_from-succeeds :
      (count left attempt : ℕ) (last : Option Failure) (s : S)
      → count < left
      → FailFirst count attempt s
      → (operation (calls count s)).0 ≡ none
      → retry_from left attempt last s ≡ (none, calls (suc count) s)
  unfolding retry_from FailFirst calls
  retry_from-succeeds zero zero attempt last s more h fine = absurd (ground arith)
  retry_from-succeeds (suc count) zero attempt last s more h fine = absurd (ground arith)
  retry_from-succeeds zero (suc left) attempt last s more h fine = rw (retry_from, fine) refl
  retry_from-succeeds (suc count) (suc left) attempt last s more h fine =
      elim (Option-cases (operation s).0) [
        | inl e ↦ absurd (h.0 e)
        | inr (x, e) ↦
            rw (retry_from, e, h.1)
              (retry_from-succeeds count left (suc attempt) (some x) (operation s).1 (ground arith)
                h.2 fine)
      ]

  retry_from-exhausted :
      (count attempt : ℕ) (last : Option Failure) (s : S)
      → last ≢ none
      → FailFirst count attempt s
      → ((retry_from count attempt last s).0 ≢ none)
        × ((retry_from count attempt last s).1 ≡ calls count s)
  unfolding retry_from FailFirst calls
  retry_from-exhausted zero attempt last s l h = (l, refl)
  retry_from-exhausted (suc count) attempt last s l h = elim (Option-cases (operation s).0) [
    | inl e ↦ absurd (h.0 e)
    | inr (x, e) ↦
        rw (retry_from, e, h.1)
          (retry_from-exhausted count (suc attempt) (some x) (operation s).1 (λ q. cc) h.2)
  ]

  -- Where the operation fails the first times and then succeeds, and no wait is cut short, a retry that
  -- may call it more often than it fails returns no error and has called it once more than it failed.
  pub retry-succeeds :
      (attempts count : ℕ) (s : S)
      → count < attempts
      → FailFirst count 0 s
      → (operation (calls count s)).0 ≡ none
      → retry attempts s ≡ (none, calls (suc count) s)
  unfolding retry
  retry-succeeds attempts count s more h fine =
      retry_from-succeeds count attempts 0 none s more h fine

  -- Where as many calls as there may be all fail, and no wait is cut short, a retry returns an error and
  -- has called the operation that often and no more.
  pub retry-exhausted :
      (more : ℕ) (s : S)
      → FailFirst (suc more) 0 s
      → ((retry (suc more) s).0 ≢ none) × ((retry (suc more) s).1 ≡ calls (suc more) s)
  unfolding retry retry_from FailFirst calls
  retry-exhausted more s h = elim (Option-cases (operation s).0) [
    | inl e ↦ absurd (h.0 e)
    | inr (x, e) ↦
        rw (retry, retry_from, e, h.1)
          (retry_from-exhausted more 1 (some x) (operation s).1 (λ q. cc) h.2)
  ]

module _ {S : Type 0} (cancelled : ℕ → Option Failure) (attempts : ℕ) (provider : Provider S) where
  -- `retryProvider`. The closure that is tried assigns the result too.
  abbrev pub attempt_evaluate : DecisionRequest → Operation (DecisionResult × S)
  attempt_evaluate r (old, s) =
      let (result, error, s') = provider.evaluate r s in (error, (result, s'))

  abbrev pub retry_evaluate : DecisionRequest → S → DecisionResult × Option Failure × S
  retry_evaluate r s =
      let (error, (result, s')) = retry cancelled (attempt_evaluate r) attempts (zero_result, s) in
      (result, error, s')

  abbrev pub retry_provider : Provider S
  retry_provider = record {
    emit = λ e. retry cancelled (provider.emit e) attempts;
    evaluate = retry_evaluate;
    flush = provider.flush;
    shutdown = provider.shutdown;
  }
