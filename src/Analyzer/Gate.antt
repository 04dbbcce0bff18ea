-- ===== src/Analyzer/Gate.antt =====
-- The rules of apps/control-plane/internal/analysis/rules.go before the gate of
-- apps/control-plane/internal/policy/policy.go.
use epistemic_engine.Prelude.{
  ℕ, Bool, true, false, not, List, [], ◌∷◌, ◌++◌, ◌&&◌, ◌||◌, ◌≡◌, ◌↔◌, refl, sym, ◌∙◌, ap, arith,
  any_of, Bool-cases, inl, inr, if◌then◌else◌,
}
use epistemic_engine.Domain.Status.{
  ClaimState, is_supported, is_externally_verified, is_partially_supported, is_contradicted,
  is_rejected,
}
use epistemic_engine.Domain.Run.{Event, Run}
use epistemic_engine.Domain.Claim.{Claim, Graph}
use epistemic_engine.Policy.{evaluate}
use epistemic_engine.Policy.Laws.{
  is_critical, is_blocking, is_open, Passes, action_allowed-evaluate_iff,
}
use epistemic_engine.Analyzer.Sees
use epistemic_engine.Analyzer.Evidence.{AnalyzerEnv}
use epistemic_engine.Analyzer.Rules.{
  Observed, nothing_observed, noted, observe, value_of_event, observe_all, observed_state,
  privacy_state, is_pending, unknowns_of, bound_claim, bind_claims, analyze,
}

-- Some event satisfies the test.
abbrev pub happened : (List ℕ → Bool) → List Event → Bool
happened p es = any_of (λ e. p (value_of_event e)) es

or_assoc : (a b c : Bool) → ((a || b) || c) ≡ (a || (b || c))
or_assoc true b c = refl
or_assoc false b c = refl

observe_all-happened :
    (f : Observed → Bool) (p : List ℕ → Bool)
    → ((v : List ℕ) (o : Observed) → f (observe v o) ≡ (f o || p v))
    → (es : List Event) (o : Observed) → f (observe_all es o) ≡ (f o || happened p es)
unfolding observe_all
observe_all-happened f p turn [] o = ground arith
observe_all-happened f p turn (e ∷ es) o =
    observe_all-happened f p turn es (observe (value_of_event e) o)
    ∙ ap (λ b. b || happened p es) (turn (value_of_event e) o)
    ∙ or_assoc (f o) _ _

noted_or : (test seen flag : Bool) → noted test seen flag ≡ (flag || test && seen)
noted_or test seen flag = ground arith

set_or : (test flag : Bool) → (if test then true else flag) ≡ (flag || test)
set_or test flag = ground arith

-- The events that let the gate pass: a build, a test, a check of compatibility and a test of privacy
-- passed, none of the first three failed, and nothing leaked.
pub record IsClean (es : List Event) : Type 0 where
  pub built : happened (λ v. Sees.build v && Sees.passed v) es ≡ true
  pub no_build_failed : happened (λ v. Sees.build v && Sees.failed v) es ≡ false
  pub tested : happened (λ v. Sees.unit v && Sees.passed v) es ≡ true
  pub no_test_failed : happened (λ v. Sees.unit v && Sees.failed v) es ≡ false
  pub compatible : happened (λ v. Sees.compatibility v && Sees.passed v) es ≡ true
  pub not_incompatible : happened (λ v. Sees.compatibility v && Sees.failed v) es ≡ false
  pub private_tested : happened (λ v. Sees.pii_test v && Sees.passed v) es ≡ true
  pub nothing_leaked : happened Sees.leak es ≡ false

observed : List Event → Observed
observed es = observe_all es nothing_observed

observed-happened :
    (f : Observed → Bool) (test what : List ℕ → Bool) (es : List Event)
    → ((v : List ℕ) (o : Observed) → f (observe v o) ≡ noted (test v) (what v) (f o))
    → f nothing_observed ≡ false
    → f (observed es) ≡ happened (λ v. test v && what v) es
unfolding observed
observed-happened f test what es turn start =
    observe_all-happened f (λ v. test v && what v)
      (λ v o. turn v o ∙ noted_or (test v) (what v) (f o)) es nothing_observed
    ∙ rw start refl

module _ (es : List Event) where
  build_pass-eq : (observed es).build_pass ≡ happened (λ v. Sees.build v && Sees.passed v) es
  unfolding observe
  build_pass-eq = observed-happened (λ o. o.build_pass) Sees.build Sees.passed es (λ v o. refl) refl

  build_fail-eq : (observed es).build_fail ≡ happened (λ v. Sees.build v && Sees.failed v) es
  unfolding observe
  build_fail-eq = observed-happened (λ o. o.build_fail) Sees.build Sees.failed es (λ v o. refl) refl

  unit_pass-eq : (observed es).unit_pass ≡ happened (λ v. Sees.unit v && Sees.passed v) es
  unfolding observe
  unit_pass-eq = observed-happened (λ o. o.unit_pass) Sees.unit Sees.passed es (λ v o. refl) refl

  unit_fail-eq : (observed es).unit_fail ≡ happened (λ v. Sees.unit v && Sees.failed v) es
  unfolding observe
  unit_fail-eq = observed-happened (λ o. o.unit_fail) Sees.unit Sees.failed es (λ v o. refl) refl

  compatibility_pass-eq :
      (observed es).compatibility_pass ≡ happened (λ v. Sees.compatibility v && Sees.passed v) es
  unfolding observe
  compatibility_pass-eq =
      observed-happened (λ o. o.compatibility_pass) Sees.compatibility Sees.passed es (λ v o. refl)
        refl

  compatibility_fail-eq :
      (observed es).compatibility_fail ≡ happened (λ v. Sees.compatibility v && Sees.failed v) es
  unfolding observe
  compatibility_fail-eq =
      observed-happened (λ o. o.compatibility_fail) Sees.compatibility Sees.failed es (λ v o. refl)
        refl

  pii_pass-eq : (observed es).pii_pass ≡ happened (λ v. Sees.pii_test v && Sees.passed v) es
  unfolding observe
  pii_pass-eq = observed-happened (λ o. o.pii_pass) Sees.pii_test Sees.passed es (λ v o. refl) refl

  pii_leak-eq : (observed es).pii_leak ≡ happened Sees.leak es
  unfolding observed observe
  pii_leak-eq =
      observe_all-happened (λ o. o.pii_leak) Sees.leak (λ v o. set_or (Sees.leak v) o.pii_leak) es
        nothing_observed

-- What the gate asks of the state that two observations give.
rejected-observed : (p f : Bool) → is_rejected (observed_state p f) ≡ false
unfolding observed_state
rejected-observed p f = ground arith

contradicted-observed : (p f : Bool) → is_contradicted (observed_state p f) ≡ f
unfolding observed_state
contradicted-observed p f = ground arith

settled-observed :
    (p f : Bool)
    → (is_supported (observed_state p f)
        || is_externally_verified (observed_state p f)
        || is_partially_supported (observed_state p f))
      ≡ (p && not f)
unfolding observed_state
settled-observed p f = ground arith

pending-observed : (p f : Bool) → is_pending (observed_state p f) ≡ (not p && not f)
unfolding observed_state
pending-observed p f = ground arith

privacy-observed : (p f : Bool) → privacy_state p f ≡ observed_state p f
unfolding privacy_state observed_state
privacy-observed p f = refl

any_of-append :
    {A : Type 0} (p : A → Bool) (xs ys : List A)
    → any_of p (xs ++ ys) ≡ (any_of p xs || any_of p ys)
any_of-append p [] ys = refl
any_of-append p (x ∷ xs) ys = ap (λ b. p x || b) (any_of-append p xs ys) ∙ sym (or_assoc (p x) _ _)

open-unknowns_of : (c : Claim) → any_of is_open (unknowns_of c) ≡ (c.critical && is_pending c.state)
unfolding unknowns_of
open-unknowns_of c = elim (Bool-cases (c.critical && is_pending c.state)) [
  | inl t ↦ rw t refl
  | inr f ↦ rw f refl
]

contradicted-privacy : (p f : Bool) → is_contradicted (privacy_state p f) ≡ f
contradicted-privacy p f = ap is_contradicted (privacy-observed p f) ∙ contradicted-observed p f

abbrev is_settled : ClaimState → Bool
is_settled s = is_supported s || is_externally_verified s || is_partially_supported s

-- What the gate asks of the five claims.
module _ (o : Observed) where
  abbrev build_state : ClaimState
  build_state = observed_state o.build_pass o.build_fail

  abbrev unit_state : ClaimState
  unit_state = observed_state o.unit_pass o.unit_fail

  abbrev compatibility_state : ClaimState
  compatibility_state = observed_state o.compatibility_pass o.compatibility_fail

  abbrev pii_state : ClaimState
  pii_state = privacy_state o.pii_pass o.pii_leak

  abbrev rollback_state : ClaimState
  rollback_state = observed_state o.rollback_ready false

  abbrev on_critical : (ClaimState → Bool) → Bool
  on_critical p =
      p build_state || (p unit_state || (p compatibility_state || (p pii_state || false)))

  abbrev on_states : (ClaimState → Bool) → Bool
  on_states p =
      p build_state
      || (p unit_state || (p compatibility_state || (p pii_state || (p rollback_state || false))))

  states-contradicted :
      on_states is_contradicted
      ≡ (o.build_fail || (o.unit_fail || (o.compatibility_fail || o.pii_leak)))
  states-contradicted =
      rw
        (
          contradicted-observed o.build_pass o.build_fail,
          contradicted-observed o.unit_pass o.unit_fail,
          contradicted-observed o.compatibility_pass o.compatibility_fail,
          contradicted-privacy o.pii_pass o.pii_leak,
          contradicted-observed o.rollback_ready false,
        )
        (ground arith)

  states-rejected : on_states is_rejected ≡ false
  states-rejected =
      rw
        (
          rejected-observed o.build_pass o.build_fail,
          rejected-observed o.unit_pass o.unit_fail,
          rejected-observed o.compatibility_pass o.compatibility_fail,
          privacy-observed o.pii_pass o.pii_leak,
          rejected-observed o.pii_pass o.pii_leak,
          rejected-observed o.rollback_ready false,
        )
        refl

  states-blocking :
      on_critical (λ s. not (is_settled s))
      ≡ not (
          (o.build_pass && not o.build_fail)
          && ((o.unit_pass && not o.unit_fail)
              && ((o.compatibility_pass && not o.compatibility_fail)
                  && (o.pii_pass && not o.pii_leak))))
  states-blocking =
      rw
        (
          settled-observed o.build_pass o.build_fail,
          settled-observed o.unit_pass o.unit_fail,
          settled-observed o.compatibility_pass o.compatibility_fail,
          privacy-observed o.pii_pass o.pii_leak,
          settled-observed o.pii_pass o.pii_leak,
        )
        (ground arith)

  states-pending : on_critical is_pending ≡ (
      (not o.build_pass && not o.build_fail)
      || ((not o.unit_pass && not o.unit_fail)
          || ((not o.compatibility_pass && not o.compatibility_fail)
              || (not o.pii_pass && not o.pii_leak))))
  states-pending =
      rw
        (
          pending-observed o.build_pass o.build_fail,
          pending-observed o.unit_pass o.unit_fail,
          pending-observed o.compatibility_pass o.compatibility_fail,
          privacy-observed o.pii_pass o.pii_leak,
          pending-observed o.pii_pass o.pii_leak,
        )
        (ground arith)

module _ (env : AnalyzerEnv) (run : Run) where
  contradicted-analyze :
      any_of (λ c. is_contradicted c.state) (analyze env run).claims
      ≡ on_states (observed run.events) is_contradicted
  unfolding analyze bind_claims bound_claim observed
  contradicted-analyze = refl

  critical-analyze : any_of is_critical (analyze env run).claims ≡ true
  unfolding analyze bind_claims bound_claim
  critical-analyze = refl

  rejected-analyze :
      any_of (λ c. is_rejected c.state) (analyze env run).claims
      ≡ on_states (observed run.events) is_rejected
  unfolding analyze bind_claims bound_claim observed
  rejected-analyze = refl

  blocking-analyze :
      any_of is_blocking (analyze env run).claims
      ≡ on_critical (observed run.events) (λ s. not (is_settled s))
  unfolding analyze bind_claims bound_claim observed
  blocking-analyze = refl

  open-analyze :
      any_of is_open (analyze env run).unknowns ≡ on_critical (observed run.events) is_pending
  unfolding analyze bind_claims bound_claim observed
  open-analyze = simp (any_of-append, open-unknowns_of)

-- The graph of a run with what the rules found.
abbrev pub analyzed : AnalyzerEnv → Run → Graph → Graph
analyzed env run g =
    let a = analyze env run in record g { claims = a.claims; unknowns = a.unknowns }

-- The conditions on single observations that let the gate pass.
record Fine (o : Observed) : Type 0 where
  build : (o.build_pass && not o.build_fail) ≡ true
  unit : (o.unit_pass && not o.unit_fail) ≡ true
  compatibility : (o.compatibility_pass && not o.compatibility_fail) ≡ true
  pii : (o.pii_pass && not o.pii_leak) ≡ true

module _ (env : AnalyzerEnv) (run : Run) (g : Graph) where
  Passes-Fine : Passes (analyzed env run g) → Fine (observed run.events)
  Passes-Fine p =
      let o = observed run.events in
      let b = sym (states-blocking o) ∙ sym (blocking-analyze env run) ∙ p.none_blocking in
      record {
        build = ground arith;
        unit = ground arith;
        compatibility = ground arith;
        pii = ground arith;
      }

  Fine-Passes : Fine (observed run.events) → Passes (analyzed env run g)
  Fine-Passes f =
      let o = observed run.events in
      record {
        some_critical = critical-analyze env run;
        none_rejected = rejected-analyze env run ∙ states-rejected o;
        none_contradicted =
            contradicted-analyze env run
            ∙ states-contradicted o
            ∙ ground (arith, f.build, f.unit, f.compatibility, f.pii);
        none_blocking =
            blocking-analyze env run
            ∙ states-blocking o
            ∙ ground (arith, f.build, f.unit, f.compatibility, f.pii);
        none_open =
            open-analyze env run
            ∙ states-pending o
            ∙ ground (arith, f.build, f.unit, f.compatibility, f.pii);
      }

both_true : (a b : Bool) → (a && not b) ≡ true → (a ≡ true) × (b ≡ false)
both_true a b h = ground arith

true_both : (a b : Bool) → a ≡ true → b ≡ false → (a && not b) ≡ true
true_both a b h k = ground arith

Fine-IsClean : (es : List Event) → Fine (observed es) → IsClean es
Fine-IsClean es f =
    let build = both_true _ _ f.build in
    let unit = both_true _ _ f.unit in
    let compatibility = both_true _ _ f.compatibility in
    let pii = both_true _ _ f.pii in
    record {
      built = sym (build_pass-eq es) ∙ build.0;
      no_build_failed = sym (build_fail-eq es) ∙ build.1;
      tested = sym (unit_pass-eq es) ∙ unit.0;
      no_test_failed = sym (unit_fail-eq es) ∙ unit.1;
      compatible = sym (compatibility_pass-eq es) ∙ compatibility.0;
      not_incompatible = sym (compatibility_fail-eq es) ∙ compatibility.1;
      private_tested = sym (pii_pass-eq es) ∙ pii.0;
      nothing_leaked = sym (pii_leak-eq es) ∙ pii.1;
    }

IsClean-Fine : (es : List Event) → IsClean es → Fine (observed es)
IsClean-Fine es c = record {
  build = true_both _ _ (build_pass-eq es ∙ c.built) (build_fail-eq es ∙ c.no_build_failed);
  unit = true_both _ _ (unit_pass-eq es ∙ c.tested) (unit_fail-eq es ∙ c.no_test_failed);
  compatibility =
      true_both _ _ (compatibility_pass-eq es ∙ c.compatible)
        (compatibility_fail-eq es ∙ c.not_incompatible);
  pii = true_both _ _ (pii_pass-eq es ∙ c.private_tested) (pii_leak-eq es ∙ c.nothing_leaked);
}

-- With the claims and the unknowns that the rules find in a run, the gate allows the action exactly
-- when a human approved and, among the events of the run, some about the build, about tests of
-- neither compatibility nor privacy, about compatibility and about tests of privacy report success,
-- none of the first three kinds reports a failure or an error, and none leaks personal data.
pub action_allowed-analyze_iff :
    (env : AnalyzerEnv) (run : Run) (g : Graph) (approved : Bool)
    → ((evaluate (analyzed env run g) approved).action_allowed ≡ true)
      ↔ ((approved ≡ true) × IsClean run.events)
action_allowed-analyze_iff env run g approved =
    let gate = action_allowed-evaluate_iff (analyzed env run g) approved in
    (
      λ h. ((gate.0 h).0, Fine-IsClean run.events (Passes-Fine env run g (gate.0 h).1)),
      λ h. gate.1 (h.0, Fine-Passes env run g (IsClean-Fine run.events h.1)),
    )
