-- ===== src/Relay/Examples.antt =====
-- Runs of the relay of cmd/epistemic-relay/main.go, and the theorems about it at concrete inputs.
use epistemic_engine.Prelude.{ℕ, zero, suc, String, none, some, [], ◌∷◌, ◌≡◌, ◌≢◌, refl, arith}
use epistemic_engine.Protocol.Provider.{other}
use epistemic_engine.Relay.Redact.{
  Json, text, array, object, no_items, item, no_members, member, redact, Hidden,
  redact-Hidden_and_same,
}
use epistemic_engine.Relay.Retry.{
  Operation, FailFirst, retry, calls, retry-succeeds, retry-exhausted,
}

abbrev lower : String → String
lower s = s

abbrev secret : Json
secret = object (
    member "user" (array (item (object (member "token" (text "t") no_members)) no_items))
      no_members)

redact-Hidden_and_same_example :
    Hidden lower ("token" ∷ []) (redact lower ("token" ∷ []) secret)
    × (Hidden lower ("token" ∷ []) secret → redact lower ("token" ∷ []) secret ≡ secret)
    × (redact lower ("token" ∷ []) (redact lower ("token" ∷ []) secret)
        ≡ redact lower ("token" ∷ []) secret)
redact-Hidden_and_same_example = redact-Hidden_and_same lower ("token" ∷ []) secret

-- Fails while the number is positive.
abbrev counting_down : Operation ℕ
counting_down zero = (none, zero)
counting_down (suc n) = (some (other "unavailable"), n)

fails_twice : FailFirst (λ n. none) counting_down 2 0 2
unfolding FailFirst
fails_twice = (λ e. cc, refl, (λ e. cc, refl, tt))

fails_from_five : FailFirst (λ n. none) counting_down 2 0 5
unfolding FailFirst
fails_from_five = (λ e. cc, refl, (λ e. cc, refl, tt))

retry-succeeds_example :
    retry (λ n. none) counting_down 3 2 ≡ (none, calls (λ n. none) counting_down 3 2)
unfolding calls
retry-succeeds_example =
    retry-succeeds (λ n. none) counting_down 3 2 2 (ground arith) fails_twice refl

retry-exhausted_example :
    ((retry (λ n. none) counting_down 2 5).0 ≢ none)
    × ((retry (λ n. none) counting_down 2 5).1 ≡ calls (λ n. none) counting_down 2 5)
retry-exhausted_example = retry-exhausted (λ n. none) counting_down 1 5 fails_from_five
