-- ===== src/Protocol/Persistence.antt =====
-- What the events that are emitted to sdk/go/providers/local/local.go do to later evaluations.
use epistemic_engine.Prelude.{
  String, Bool, true, false, not, none, some, List, [], ◌∷◌, ◌++◌, ◌&&◌, ◌||◌, ◌≡◌, refl, arith,
  ◌==◌, eq_iff, any_of, All, Bool-cases, Option-cases, inl, inr, if◌then◌else◌,
}
use epistemic_engine.Go.Map.{
  Map, lookup, insert, values, has_key, lookup-insert, lookup-insert_self,
}
use epistemic_engine.Go.Numbers.{Time}
use epistemic_engine.Protocol.Types.{Event, DecisionRequest}
use epistemic_engine.Protocol.Validation.{validate_event}
use epistemic_engine.Protocol.Local.{emit, collect, events_for, blocks, decide}
use epistemic_engine.Protocol.Gate.{decide-eq-spec}

unfoldable pub emit_all : List Event → Map Event → Map Event
emit_all [] events = events
emit_all (e ∷ es) events = emit_all es (emit e events).1

abbrev has_id : String → Event → Bool
has_id id e = e.id == id

-- Every event stands under its own identifier.
abbrev IsKeyed : Map Event → Type 0
IsKeyed events = All (λ entry. entry.1.id ≡ entry.0) events

insert-IsKeyed : (e : Event) (events : Map Event) → IsKeyed events → IsKeyed (insert e.id e events)
unfolding insert
insert-IsKeyed e [] h = (refl, tt)
insert-IsKeyed e ((key, x) ∷ events) h = elim (Bool-cases (key == e.id)) [
  | inl same ↦ rw same (ground (arith, eq_iff key e.id), h.1)
  | inr other ↦ rw other (h.0, insert-IsKeyed e events h.1)
]

emit-IsKeyed : (e : Event) (events : Map Event) → IsKeyed events → IsKeyed (emit e events).1
unfolding emit
emit-IsKeyed e events h = elim (Option-cases (validate_event e)) [
  | inl valid ↦
      rw (emit, valid)
        (elim (Bool-cases (has_key e.id events)) [
          | inl there ↦ rw there h
          | inr missing ↦ rw missing (insert-IsKeyed e events h)
        ])
  | inr (x, invalid) ↦ rw (emit, invalid) h
]

emit_all-IsKeyed :
    (es : List Event) (events : Map Event) → IsKeyed events → IsKeyed (emit_all es events)
unfolding emit_all
emit_all-IsKeyed [] events h = h
emit_all-IsKeyed (e ∷ es) events h = emit_all-IsKeyed es (emit e events).1 (emit-IsKeyed e events h)

-- What is stored under an identifier stays.
emit-lookup :
    (e stored : Event) (id : String) (events : Map Event)
    → lookup id events ≡ some stored
    → lookup id (emit e events).1 ≡ some stored
unfolding emit
emit-lookup e stored id events there = elim (Option-cases (validate_event e)) [
  | inr (x, invalid) ↦ rw (emit, invalid) there
  | inl valid ↦
      rw (emit, valid)
        (elim (Option-cases (lookup e.id events)) [
          | inr (x, known) ↦ rw known there
          | inl missing ↦
              rw missing (ground (arith, lookup-insert e.id id e events, eq_iff e.id id))
        ])
]

emit_all-lookup :
    (es : List Event) (stored : Event) (id : String) (events : Map Event)
    → lookup id events ≡ some stored
    → lookup id (emit_all es events) ≡ some stored
unfolding emit_all
emit_all-lookup [] stored id events there = there
emit_all-lookup (e ∷ es) stored id events there =
    emit_all-lookup es stored id (emit e events).1 (emit-lookup e stored id events there)

emit_new :
    (e : Event) (events : Map Event)
    → validate_event e ≡ none
    → lookup e.id events ≡ none
    → lookup e.id (emit e events).1 ≡ some e
unfolding emit
emit_new e events valid missing = rw (emit, valid, missing) (lookup-insert_self e.id e events)

any_of-append :
    (p : Event → Bool) (xs ys : List Event) → any_of p (xs ++ ys) ≡ (any_of p xs || any_of p ys)
any_of-append p [] ys = refl
any_of-append p (x ∷ xs) ys = ground (arith, any_of-append p xs ys)

-- `collect` takes `e` in behind what it has seen.
abbrev with_event : (Event → Bool) → List Event → Event → List Event
with_event wanted seen e =
    if not (any_of (has_id e.id) seen) && wanted e then seen ++ e ∷ [] else seen

any_of-with_event :
    (p wanted : Event → Bool) (seen : List Event) (e : Event)
    → any_of p seen ≡ true
    → any_of p (with_event wanted seen e) ≡ true
any_of-with_event p wanted seen e h = ground (arith, any_of-append p seen (e ∷ []))

none-with_event :
    (p wanted : Event → Bool) (seen : List Event) (e : Event)
    → any_of p seen ≡ false
    → p e ≡ false
    → any_of p (with_event wanted seen e) ≡ false
none-with_event p wanted seen e h other = ground (arith, any_of-append p seen (e ∷ []))

-- The collection keeps what it has, and adds nothing that is in neither list.
collect_keeps :
    (p wanted : Event → Bool) (es seen : List Event)
    → any_of p seen ≡ true
    → any_of p (collect wanted seen es) ≡ true
unfolding collect
collect_keeps p wanted [] seen h = h
collect_keeps p wanted (e ∷ es) seen h =
    collect_keeps p wanted es (with_event wanted seen e) (any_of-with_event p wanted seen e h)

collect_avoids :
    (p wanted : Event → Bool) (es seen : List Event)
    → any_of p seen ≡ false
    → any_of p es ≡ false
    → any_of p (collect wanted seen es) ≡ false
unfolding collect
collect_avoids p wanted [] seen h hs = h
collect_avoids p wanted (e ∷ es) seen h hs =
    collect_avoids p wanted es (with_event wanted seen e)
      (none-with_event p wanted seen e h (ground arith)) (ground arith)

collect_finds :
    (p wanted : Event → Bool) (e : Event) (events : Map Event) (seen : List Event)
    → IsKeyed events
    → lookup e.id events ≡ some e
    → wanted e ≡ true
    → p e ≡ true
    → any_of (has_id e.id) seen ≡ false
    → any_of p (collect wanted seen (values events)) ≡ true
unfolding collect values lookup
collect_finds p wanted e [] seen keyed there want has new = cc
collect_finds p wanted e ((key, x) ∷ events) seen keyed there want has new =
    elim (Bool-cases (key == e.id)) [
      | inl same ↦
          let found : x ≡ e = cc (rw same at there) in
          rw (found, new, want)
            (collect_keeps p wanted (values events) (seen ++ e ∷ [])
              (ground (arith, any_of-append p seen (e ∷ []))))
      | inr other ↦
          collect_finds p wanted e events (with_event wanted seen x) keyed.1 (rw other at there)
            want has (none-with_event (has_id e.id) wanted seen x new (rw keyed.0 other))
    ]

-- A valid event that blocks, emitted to a new local provider under an identifier that it does not
-- hold yet, keeps the action of its decision from being allowed in every later evaluation, whatever
-- is emitted before and after it, "contradiction.resolved" and "claim.superseded" included, and
-- whatever the approval, if the request itself brings no event with this identifier.
pub emitted-blocks :
    (earlier later : List Event) (e : Event) (now : Time) (r : DecisionRequest)
    → validate_event e ≡ none
    → lookup e.id (emit_all earlier []) ≡ none
    → blocks e ≡ true
    → e.context.decision_id ≡ r.decision_id
    → any_of (has_id e.id) r.events ≡ false
    → (decide now r (emit_all later (emit e (emit_all earlier [])).1)).action_allowed ≡ false
unfolding events_for
emitted-blocks earlier later e now r valid missing blocking same foreign =
    let before = emit_all earlier [] in
    let at_emit = (emit e before).1 in
    let events = emit_all later at_emit in
    let keyed =
      emit_all-IsKeyed later at_emit (emit-IsKeyed e before (emit_all-IsKeyed earlier [] tt)) in
    let held = emit_all-lookup later e e.id at_emit (emit_new e before valid missing) in
    let wanted = λ (x : Event). r.decision_id == "" || x.context.decision_id == r.decision_id in
    let blocked : any_of blocks (events_for r events) ≡ true =
      collect_finds blocks wanted e events (collect (λ x. true) [] r.events) keyed held
        (ground (arith, eq_iff e.context.decision_id r.decision_id)) blocking
        (collect_avoids (has_id e.id) (λ x. true) r.events [] refl foreign) in
    rw (decide-eq-spec now r events, blocked) refl
