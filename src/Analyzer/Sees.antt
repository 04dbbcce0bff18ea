-- ===== src/Analyzer/Sees.antt =====
-- The tests of the loop over the events in apps/control-plane/internal/analysis/rules.go, on a text in
-- lower case.
use epistemic_engine.Prelude.{ℕ, Bool, not, List, ◌&&◌, ◌||◌}
use epistemic_engine.Analyzer.Text.{mentions, has_email}

unfoldable pub passed : List ℕ → Bool
unfolding mentions
passed v =
    mentions "pass" v || mentions "\"status\":\"success" v || mentions "\"status\": \"success" v

unfoldable pub failed : List ℕ → Bool
unfolding mentions
failed v = mentions "fail" v || mentions "error" v

unfoldable pub compatibility : List ℕ → Bool
unfolding mentions
compatibility v = mentions "compatib" v || mentions "legacy" v || mentions "migration" v

unfoldable pub pii : List ℕ → Bool
unfolding mentions
pii v = mentions "pii" v || mentions "privacy" v || mentions "email" v

unfoldable pub test : List ℕ → Bool
unfolding mentions
test v = mentions "test" v

unfoldable pub build : List ℕ → Bool
unfolding mentions
build v = mentions "build" v

unfoldable pub unit : List ℕ → Bool
unfolding test compatibility pii
unit v = test v && not (compatibility v) && not (pii v)

unfoldable pub pii_test : List ℕ → Bool
unfolding test pii
pii_test v = pii v && test v

unfoldable pub leak : List ℕ → Bool
unfolding mentions has_email
leak v =
    (mentions "log" v || mentions "diff" v || mentions "patch" v)
    && (has_email v || mentions "customer.email" v || mentions "user.email" v)

unfoldable pub rollback : List ℕ → Bool
unfolding mentions passed
rollback v = mentions "rollback" v && (passed v || mentions "ready" v)
