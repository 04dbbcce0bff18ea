-- ===== src/Gateway/Context/RoundTrip.antt =====
-- A context survives the header `Epistemic-Context` of apps/control-plane/internal/httpapi/protocol.go.
use Prim.Native.Char.{Char}
use Prim.Native.String.{◌++◌ as append}
use text.Mathlib.TextLemmas.{nil-append, cons-append, append_assoc}
use epistemic_engine.Prelude.{
  String, true, false, some, List, [], ◌∷◌, ◌++◌, ◌≡◌, refl, sym, ◌∙◌, ap, ◌==◌, All, All-append,
  Bool-cases, inl, inr, if◌then◌else◌,
}
use epistemic_engine.Go.Split.{
  split, cut, join, lacks, lacks-append, split-join, cut-append, trim_right-append, trim_left-cons,
}
use epistemic_engine.Go.Text.{concat, is_space, trim_left, trim_right, trim_space}
use epistemic_engine.Protocol.Types.{Context}
use epistemic_engine.Protocol.Provider.{zero_context}
use epistemic_engine.Gateway.Consistency.{same_text}
use epistemic_engine.Gateway.Context.{
  merge_pair, merge_item, merge_items, merge_context_header, part, parts, context_header,
}

-- A text that can stand in the header: no semicolon, and no space at its end.
pub record IsClean (value : String) : Type 0 where
  pub whole : lacks b';' value ≡ true
  pub tight : trim_right is_space value ≡ value

merge_items-append :
    (c : Context) (xs ys : List String)
    → merge_items c (xs ++ ys) ≡ merge_items (merge_items c xs) ys
unfolding merge_items
merge_items-append c [] ys = refl
merge_items-append c (x ∷ xs) ys = merge_items-append (merge_item c x) xs ys

-- A key of the header, by its first character and the rest.
record IsKey (k : Char) (ey : String) : Type 0 where
  no_semicolon : lacks b';' (String.◌∷◌ k ey) ≡ true
  no_equals : lacks b'=' (String.◌∷◌ k ey) ≡ true
  no_space : is_space k ≡ false

equals_lacks : lacks b';' "=" ≡ true
unfolding lacks
equals_lacks = refl

module _ (k : Char) (ey value : String) (key : IsKey k ey) (clean : IsClean value)
    (set : (value == "") ≡ false) where
  item : String
  item = concat (concat (String.◌∷◌ k ey) "=") value

  item-eq : item ≡ append (String.◌∷◌ k ey) (String.◌∷◌ "=" value)
  unfolding item
  item-eq =
      append_assoc (String.◌∷◌ k ey) "=" value
      ∙ rw (cons-append "=" "" value, nil-append value) refl

  item_trimmed : trim_space item ≡ item
  unfolding trim_space item
  item_trimmed =
      let start : item ≡ String.◌∷◌ k (append (append ey "=") value) =
        ap (λ s. append s value) (cons-append k ey "=") ∙ cons-append k (append ey "=") value in
      let left : trim_left is_space item ≡ item =
        ap (trim_left is_space) start
        ∙ trim_left-cons is_space k (append (append ey "=") value) key.no_space
        ∙ sym start in
      ap (trim_right is_space) left
      ∙ trim_right-append is_space (append (String.◌∷◌ k ey) "=") value set clean.tight

  item-cut : cut b'=' (trim_space item) ≡ some (String.◌∷◌ k ey, value)
  item-cut =
      rw (item_trimmed, item-eq) (cut-append b'=' "=" (String.◌∷◌ k ey) value key.no_equals refl)

  item-lacks : lacks b';' item ≡ true
  unfolding item
  item-lacks = rw (lacks-append, lacks-append, key.no_semicolon, equals_lacks, clean.whole) refl

module _ (k : Char) (ey value : String) (key : IsKey k ey) (clean : IsClean value) where
  part-lacks : All (λ t. lacks b';' t ≡ true) (part (String.◌∷◌ k ey) value)
  unfolding part item
  part-lacks = elim (Bool-cases (value == "")) [
    | inl empty ↦ rw (part, empty) tt
    | inr set ↦ rw (part, set) (item-lacks k ey value key clean set, tt)
  ]

  merge_items-part :
      (c : Context)
      → merge_items c (part (String.◌∷◌ k ey) value)
        ≡ (if value == "" then c else merge_pair c (String.◌∷◌ k ey) value)
  unfolding part merge_items merge_item item
  merge_items-part c = elim (Bool-cases (value == "")) [
    | inl empty ↦ rw (part, empty) refl
    | inr set ↦ rw (part, set, merge_item, item-cut k ey value key clean set) refl
  ]

merge_items-join :
    (c : Context) (items : List String)
    → All (λ t. lacks b';' t ≡ true) items
    → merge_items c (split b';' (join ";" items)) ≡ merge_items c items
unfolding split join merge_items merge_item trim_space cut
merge_items-join c [] h = refl
merge_items-join c (s ∷ ss) h = ap (merge_items c) (split-join b';' ";" s ss refl h)

-- The fields of the context can all stand in the header.
pub record AllClean (c : Context) : Type 0 where
  pub decision : IsClean c.decision_id
  pub run : IsClean c.run_id
  pub correlation : IsClean c.correlation
  pub parent : IsClean c.parent_id

decision-IsKey : IsKey "d" "ecision"
unfolding lacks is_space
decision-IsKey = record { no_semicolon = refl; no_equals = refl; no_space = refl }

run-IsKey : IsKey "r" "un"
unfolding lacks is_space
run-IsKey = record { no_semicolon = refl; no_equals = refl; no_space = refl }

correlation-IsKey : IsKey "c" "orrelation"
unfolding lacks is_space
correlation-IsKey = record { no_semicolon = refl; no_equals = refl; no_space = refl }

parent-IsKey : IsKey "p" "arent"
unfolding lacks is_space
parent-IsKey = record { no_semicolon = refl; no_equals = refl; no_space = refl }

-- A part of a field that is not set yet sets it.
abbrev merged : Context → String → String → Context
merged c key value = if value == "" then c else merge_pair c key value

merged_decision :
    (c : Context) (value : String)
    → c.decision_id ≡ ""
    → merged c "decision" value ≡ record c { decision_id = value }
unfolding merge_pair
merged_decision c value unset = elim (Bool-cases (value == "")) [
  | inl empty ↦
      rw empty (ap (λ v. record c { decision_id = v }) (unset ∙ sym (same_text value "" empty)))
  | inr set ↦ rw (set, unset) refl
]

merged_run :
    (c : Context) (value : String)
    → c.run_id ≡ ""
    → merged c "run" value ≡ record c { run_id = value }
unfolding merge_pair
merged_run c value unset = elim (Bool-cases (value == "")) [
  | inl empty ↦
      rw empty (ap (λ v. record c { run_id = v }) (unset ∙ sym (same_text value "" empty)))
  | inr set ↦ rw (set, unset) refl
]

merged_correlation :
    (c : Context) (value : String)
    → c.correlation ≡ ""
    → merged c "correlation" value ≡ record c { correlation = value }
unfolding merge_pair
merged_correlation c value unset = elim (Bool-cases (value == "")) [
  | inl empty ↦
      rw empty (ap (λ v. record c { correlation = v }) (unset ∙ sym (same_text value "" empty)))
  | inr set ↦ rw (set, unset) refl
]

merged_parent :
    (c : Context) (value : String)
    → c.parent_id ≡ ""
    → merged c "parent" value ≡ record c { parent_id = value }
unfolding merge_pair
merged_parent c value unset = elim (Bool-cases (value == "")) [
  | inl empty ↦
      rw empty (ap (λ v. record c { parent_id = v }) (unset ∙ sym (same_text value "" empty)))
  | inr set ↦ rw (set, unset) refl
]

module _ (c : Context) (clean : AllClean c) where
  parts-lacks : All (λ t. lacks b';' t ≡ true) (parts c)
  unfolding parts
  parts-lacks =
      All-append _ (part "decision" c.decision_id) _
        (part-lacks "d" "ecision" c.decision_id decision-IsKey clean.decision)
        (All-append _ (part "run" c.run_id) _ (part-lacks "r" "un" c.run_id run-IsKey clean.run) (
          All-append _ (part "correlation" c.correlation) _
            (part-lacks "c" "orrelation" c.correlation correlation-IsKey clean.correlation)
            (part-lacks "p" "arent" c.parent_id parent-IsKey clean.parent)))

  merge_items-parts : merge_items zero_context (parts c) ≡ c
  unfolding parts
  merge_items-parts =
      let d = record zero_context { decision_id = c.decision_id } in
      let r = record d { run_id = c.run_id } in
      let k = record r { correlation = c.correlation } in
      rw
        (
          merge_items-append zero_context (part "decision" c.decision_id),
          merge_items-append _ (part "run" c.run_id),
          merge_items-append _ (part "correlation" c.correlation),
          merge_items-part "d" "ecision" c.decision_id decision-IsKey clean.decision,
          merge_items-part "r" "un" c.run_id run-IsKey clean.run,
          merge_items-part "c" "orrelation" c.correlation correlation-IsKey clean.correlation,
          merge_items-part "p" "arent" c.parent_id parent-IsKey clean.parent,
          merged_decision zero_context c.decision_id refl,
          merged_run d c.run_id refl,
          merged_correlation r c.correlation refl,
          merged_parent k c.parent_id refl,
        )
        refl

-- Writing a context into the header and merging the header into an empty context gives the context
-- back, if its fields hold no semicolon and do not end in a space.
pub merge_context_header-context_header :
    (c : Context) → AllClean c → merge_context_header zero_context (context_header c) ≡ c
unfolding merge_context_header context_header
merge_context_header-context_header c clean =
    merge_items-join zero_context (parts c) (parts-lacks c clean) ∙ merge_items-parts c clean
