-- ===== src/Memory/Runs/Redelivery.antt =====
-- Events that arrive at a run more than once: `AddEvent` of
-- apps/control-plane/internal/store/memory.go.
use epistemic_engine.Prelude.{
  String, Bool, false, Option, none, some, List, [], ◌∷◌, ◌++◌, ◌≡◌, ◌≢◌, refl, ◌∙◌, ap, arith,
  eq_iff, Option-cases, inl, inr,
}
use epistemic_engine.Go.Effect.{ok}
use epistemic_engine.Go.Map.{lookup, insert, lookup-insert_self}
use epistemic_engine.Domain.Run.{Event, Run}
use epistemic_engine.Memory.State.{Memory}
use epistemic_engine.Memory.Runs.{add_event, find_existing, sequenced, append_event}

sequenced-external_id :
    (event : Event) (events : List Event) → (sequenced event events).external_id ≡ event.external_id
unfolding sequenced
sequenced-external_id event events = ground arith

-- The search reads nothing of the new event but its external identifier.
find_existing-external_id :
    (event again : Event) (events : List Event)
    → again.external_id ≡ event.external_id
    → find_existing again events ≡ find_existing event events
unfolding find_existing
find_existing-external_id event again [] same = refl
find_existing-external_id event again (e ∷ es) same =
    rw (same, find_existing-external_id event again es same) refl

find_existing-append :
    (event last : Event) (events : List Event)
    → event.external_id ≢ ""
    → last.external_id ≡ event.external_id
    → find_existing event events ≡ none
    → find_existing event (events ++ last ∷ []) ≡ some last
unfolding find_existing
find_existing-append event last [] named same missing =
    ground (arith, eq_iff event.external_id "", eq_iff last.external_id event.external_id)
find_existing-append event last (e ∷ es) named same missing =
    ground (arith, find_existing-append event last es, eq_iff event.external_id "")

-- The run `id` holds the event `stored` as the first one with the external identifier of `event`.
record Holds (id : String) (event stored : Event) (m : Memory) : Type 0 where
  run : Run
  found : lookup id m.runs ≡ some run
  first : find_existing event run.events ≡ some stored

append_event-Holds :
    (id : String) (event stored : Event) (run : Run) (m m' : Memory) (created : Bool)
    (existing : Option Event)
    → lookup id m.runs ≡ some run
    → event.external_id ≢ ""
    → find_existing event run.events ≡ existing
    → append_event id event run m existing ≡ (ok (stored, created), m')
    → Holds id event stored m'
unfolding append_event
append_event-Holds id event stored run m m' created (some x) found named search appended =
    let same : x ≡ stored = cc appended in
    let kept : m ≡ m' = cc appended in
    rw (← kept) (record { run = run; found = found; first = search ∙ ap some same })
append_event-Holds id event stored run m m' created none found named search appended =
    let last = sequenced event run.events in
    let same : last ≡ stored = cc appended in
    let longer = record run { events = run.events ++ last ∷ [] } in
    let kept : record m { runs = insert id longer m.runs } ≡ m' = cc appended in
    rw (← kept) (record {
      run = longer;
      found = lookup-insert_self id longer m.runs;
      first =
          find_existing-append event last run.events named (sequenced-external_id event run.events)
            search
          ∙ ap some same;
    })

add_event-Holds :
    (id : String) (event stored : Event) (m m' : Memory) (created : Bool)
    → event.external_id ≢ ""
    → add_event id event m ≡ (ok (stored, created), m')
    → Holds id event stored m'
unfolding add_event
add_event-Holds id event stored m m' created named added = elim (Option-cases (lookup id m.runs)) [
  | inl missing ↦ cc (rw (missing, add_event) at added)
  | inr (run, found) ↦
      append_event-Holds id event stored run m m' created (find_existing event run.events) found
        named refl (rw (found, add_event) at added)
]

-- An event with an external identifier that a run has taken, arriving again under the same
-- identifier with any content, is answered with the stored event as not created, and the repository
-- stays as it was.
pub add_event-redelivered :
    (id : String) (event again stored : Event) (m m' : Memory) (created : Bool)
    → event.external_id ≢ ""
    → add_event id event m ≡ (ok (stored, created), m')
    → again.external_id ≡ event.external_id
    → add_event id again m' ≡ (ok (stored, false), m')
unfolding add_event append_event
add_event-redelivered id event again stored m m' created named added same =
    let held = add_event-Holds id event stored m m' created named added in
    rw
      (
        add_event,
        held.found,
        find_existing-external_id event again held.run.events same,
        held.first,
      )
      refl
