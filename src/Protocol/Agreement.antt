-- ===== src/Protocol/Agreement.antt =====
-- What the provider of sdk/go/providers/composite/composite.go makes of the answers of its providers.
use epistemic_engine.Prelude.{
  Bool, true, false, not, Option, none, some, List, [], ◌∷◌, ◌≡◌, refl, arith, All,
}
use epistemic_engine.Protocol.Types.{DecisionRequest, DecisionResult}
use epistemic_engine.Protocol.Provider.{Provider, Failure, zero_result}
use epistemic_engine.Protocol.Composite.{join, choose, evaluate_from, composite}

-- The answers of a list of providers, called in order, each on the state that the last one left.
unfoldable pub answers :
    {S : Type 0} → DecisionRequest → List (Provider S) → S → List (DecisionResult × Option Failure)
answers r [] s = []
answers r (p ∷ ps) s =
    let (result, failure, s') = p.evaluate r s in (result, failure) ∷ answers r ps s'

-- A provider that answers without an error does not allow the action.
abbrev pub withholds : DecisionResult × Option Failure → Bool
withholds (result, none) = not result.action_allowed
withholds (result, some e) = true

choose-withholds :
    (failure : Option Failure) (result selected : DecisionResult)
    → withholds (result, failure) ≡ true
    → selected.action_allowed ≡ false
    → (choose failure result selected).action_allowed ≡ false
unfolding choose
choose-withholds none result selected h held = ground arith
choose-withholds (some e) result selected h held = held

evaluate_from-withholds :
    {S : Type 0} (r : DecisionRequest) (ps : List (Provider S)) (selected : DecisionResult)
    (failures : Option Failure) (s : S)
    → All (λ answer. withholds answer ≡ true) (answers r ps s)
    → selected.action_allowed ≡ false
    → (evaluate_from r ps selected failures s).0.action_allowed ≡ false
unfolding evaluate_from answers
evaluate_from-withholds r [] selected failures s h held = held
evaluate_from-withholds r (p ∷ ps) selected failures s h held =
    let (result, failure, s') = p.evaluate r s in
    evaluate_from-withholds r ps (choose failure result selected) (join failures failure) s' h.1
      (choose-withholds failure result selected h.0 held)

-- The composite provider does not allow an action that none of its providers allows in an answer
-- without an error, whatever errors the others give.
pub composite-withholds :
    {S : Type 0} (r : DecisionRequest) (ps : List (Provider S)) (s : S)
    → All (λ answer. withholds answer ≡ true) (answers r ps s)
    → ((composite ps).evaluate r s).0.action_allowed ≡ false
unfolding composite
composite-withholds r ps s h = evaluate_from-withholds r ps zero_result none s h refl
