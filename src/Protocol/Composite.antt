-- ===== src/Protocol/Composite.antt =====
-- sdk/go/providers/composite/composite.go: a provider that calls each of a list of providers. The
-- state is the state that its providers share; `errors.Join` of no errors is no error.
use epistemic_engine.Prelude.{
  Bool, not, Option, none, some, List, [], ◌∷◌, ◌&&◌, ◌||◌, ◌==◌, if◌then◌else◌,
}
use epistemic_engine.Protocol.Types.{DecisionRequest, DecisionResult}
use epistemic_engine.Protocol.Provider.{Provider, Failure, joined, zero_result}

-- `errors.Join`, of the failures so far and one more.
unfoldable pub join : Option Failure → Option Failure → Option Failure
join none f = f
join (some e) none = some e
join (some e) (some f) = some (joined e f)

-- `selected.SpecVersion == "" || (selected.Status == "indeterminate" && ...)`
unfoldable pub replaces : DecisionResult → DecisionResult → Bool
replaces result selected =
    selected.spec_version == ""
    || selected.status == "indeterminate" && not (result.status == "indeterminate")

unfoldable pub choose : Option Failure → DecisionResult → DecisionResult → DecisionResult
choose none result selected = if replaces result selected then result else selected
choose (some e) result selected = selected

module _ {S : Type 0} where
  -- The loops of `Emit`, `Flush` and `Shutdown`: every provider is called, whatever fails.
  unfoldable pub each :
      (Provider S → S → Option Failure × S)
      → List (Provider S)
      → Option Failure
      → S
      → Option Failure × S
  each call [] failures s = (failures, s)
  each call (p ∷ ps) failures s =
      let (failure, s') = call p s in each call ps (join failures failure) s'

  unfoldable pub evaluate_from :
      DecisionRequest
      → List (Provider S)
      → DecisionResult
      → Option Failure
      → S
      → DecisionResult × Option Failure × S
  evaluate_from r [] selected failures s = (selected, failures, s)
  evaluate_from r (p ∷ ps) selected failures s =
      let (result, failure, s') = p.evaluate r s in
      evaluate_from r ps (choose failure result selected) (join failures failure) s'

  unfoldable pub composite : List (Provider S) → Provider S
  unfolding each evaluate_from
  composite ps = record {
    emit = λ e. each (λ p. p.emit e) ps none;
    evaluate = λ r. evaluate_from r ps zero_result none;
    flush = each (λ p. p.flush) ps none;
    shutdown = each (λ p. p.shutdown) ps none;
  }
