-- ===== src/Memory/Runs.antt =====
-- apps/control-plane/internal/store/memory.go: `CreateRun`, `GetRun`, `AddEvent`, `SaveAnalysis`.
pub mod Redelivery
use epistemic_engine.Prelude.{
  ◌+◌, String, Bool, true, false, not, Option, none, some, List, [], ◌∷◌, ◌++◌, ◌&&◌, ◌==◌, map,
  length, if◌then◌else◌,
}
use epistemic_engine.Go.Effect.{not_found, Result, ok, err, or_error, Exec}
use epistemic_engine.Go.Map.{Map, lookup, insert, or_zero, insert_all}
use epistemic_engine.Go.Numbers.{pos, int_is_zero}
use epistemic_engine.Domain.Status.{RunStatus}
use epistemic_engine.Domain.Portfolio.{AiSystem}
use epistemic_engine.Domain.Run.{Event, Run, Decision, zero_decision}
use epistemic_engine.Domain.Claim.{Claim, Evidence, Relation, Assumption, Unknown, Analysis}
use epistemic_engine.Memory.State.{Memory}

-- `if system, ok := m.aiSystems[run.AISystemID]; ok { ... }`
touch_system : Run → Map AiSystem → Option AiSystem → Map AiSystem
touch_system run systems none = systems
touch_system run systems (some system) =
    insert system.id
      (record system { last_used_at = some run.created_at; updated_at = run.created_at }) systems

unfoldable pub create_run : Run → Decision → Exec Memory (Unit {0})
unfolding touch_system
create_run run decision m = (
  ok tt,
  record m {
    runs = insert run.id run m.runs;
    decisions = insert decision.id decision m.decisions;
    ai_systems = touch_system run m.ai_systems (lookup run.ai_system_id m.ai_systems);
  },
)

unfoldable pub get_run : String → Memory → Result Run
get_run id m = or_error not_found (lookup id m.runs)

-- The loop over `v.Events`: the first event with the external identifier of the new one.
find_existing : Event → List Event → Option Event
find_existing event [] = none
find_existing event (existing ∷ rest) =
    let later = find_existing event rest in
    if not (event.external_id == "") && existing.external_id == event.external_id
    then some existing
    else later

-- `if event.Sequence == 0 { event.Sequence = int64(len(v.Events) + 1) }`
sequenced : Event → List Event → Event
sequenced event events =
    if int_is_zero event.sequence
    then record event { sequence = pos (length events + 1) }
    else event

append_event : String → Event → Run → Memory → Option Event → Result (Event × Bool) × Memory
append_event id event run m (some existing) = (ok (existing, false), m)
append_event id event run m none = (
  ok (sequenced event run.events, true),
  record m {
    runs = insert id (record run { events = run.events ++ sequenced event run.events ∷ [] }) m.runs;
  },
)

-- The event that the run holds, and whether it was created.
unfoldable pub add_event : String → Event → Exec Memory (Event × Bool)
unfolding find_existing sequenced append_event
add_event id event m = elim (lookup id m.runs) [
  | none ↦ (err not_found, m)
  | some run ↦ append_event id event run m (find_existing event run.events)
]

abbrev with_claims : Analysis → Decision → Decision
with_claims a d = record d { claim_ids = map (λ (c : Claim). c.id) a.claims }

save_analysis_of : Analysis → String → Run → Memory → Memory
unfolding insert_all
save_analysis_of a run_id run m =
    let d = with_claims a (or_zero zero_decision (lookup run.decision_id m.decisions)) in
    record m {
      runs = insert run_id (record run { status = RunStatus.analyzed }) m.runs;
      claims = insert_all (λ (c : Claim). c.id) a.claims m.claims;
      evidence = insert_all (λ (e : Evidence). e.id) a.evidence m.evidence;
      relations = insert_all (λ (r : Relation). r.id) a.relations m.relations;
      assumptions = insert_all (λ (s : Assumption). s.id) a.assumptions m.assumptions;
      unknowns = insert_all (λ (u : Unknown). u.id) a.unknowns m.unknowns;
      decisions = insert d.id d m.decisions;
    }

unfoldable pub save_analysis : String → Analysis → Exec Memory (Unit {0})
unfolding save_analysis_of
save_analysis run_id a m = elim (lookup run_id m.runs) [
  | none ↦ (err not_found, m)
  | some run ↦ (ok tt, save_analysis_of a run_id run m)
]
