-- ===== src/Gateway/Context.antt =====
-- The header `Epistemic-Context`: `mergeContextHeader` and `setContextResponse` of
-- apps/control-plane/internal/httpapi/protocol.go. A header that is not set reads as "".
pub mod RoundTrip
use epistemic_engine.Prelude.{
  ℕ, String, Bool, true, false, none, some, List, [], ◌∷◌, ◌++◌, ◌==◌, if◌then◌else◌,
}
use epistemic_engine.Go.Split.{split, cut, join}
use epistemic_engine.Go.Text.{concat, or_default, trim_space}
use epistemic_engine.Protocol.Types.{Context}

-- The `switch` on the key: a field that is set stays.
unfoldable pub merge_pair : Context → String → String → Context
merge_pair c key value =
    if key == "decision"
    then record c { decision_id = or_default c.decision_id value }
    else if key == "run"
    then record c { run_id = or_default c.run_id value }
    else if key == "correlation"
    then record c { correlation = or_default c.correlation value }
    else if key == "parent"
    then record c { parent_id = or_default c.parent_id value }
    else c

unfoldable pub merge_item : Context → String → Context
unfolding merge_pair
merge_item c item = elim (cut b'=' (trim_space item)) [
  | none ↦ c
  | some (key, value) ↦ merge_pair c key value
]

unfoldable pub merge_items : Context → List String → Context
merge_items c [] = c
merge_items c (item ∷ items) = merge_items (merge_item c item) items

-- `mergeContextHeader`
unfoldable pub merge_context_header : Context → String → Context
merge_context_header c header = merge_items c (split b';' header)

-- `pair[0] + "=" + pair[1]`, where the value is set.
unfoldable pub part : String → String → List String
part key value = if value == "" then [] else concat (concat key "=") value ∷ []

unfoldable pub parts : Context → List String
unfolding part
parts c =
    part "decision" c.decision_id
    ++ (part "run" c.run_id ++ (part "correlation" c.correlation ++ part "parent" c.parent_id))

-- `setContextResponse`
unfoldable pub context_header : Context → String
unfolding parts
context_header c = join ";" (parts c)
