-- ===== src/Lifecycle/Examples.antt =====
-- Runs of the bus of apps/control-plane/internal/lifecycle/bus.go, and the theorems about it at
-- concrete uses.
use epistemic_engine.Prelude.{String, true, List, [], ◌∷◌, ◌++◌, ◌≡◌, refl, arith, take, select}
use epistemic_engine.Domain.Run.{LifecycleEvent}
use epistemic_engine.Lifecycle.{Channel, capacity, new_bus, deliver, publish, subscribe}
use epistemic_engine.Lifecycle.Delivery.{
  Use, AllFit, step, run_uses, deliver_all, of_run, run_uses-AllFit, deliver_all-eq-take,
}

abbrev event : String → LifecycleEvent
event run_id = record { run_id = run_id; type = "run.created"; payload = []; occurred_at = 1 }

abbrev uses : List Use
uses =
    Use.subscribed "r"
    ∷ Use.published (event "r")
    ∷ Use.published (event "s")
    ∷ Use.received 0
    ∷ Use.cancelled 0
    ∷ Use.published (event "r")
    ∷ []

abbrev watching : Channel
watching = record { id = 0; run_id = "r"; subscribed = true; buffer = [] }

foreign_dropped : deliver (event "s") watching ≡ watching
unfolding deliver
foreign_dropped = refl

published_twice :
    (run_uses
      (Use.subscribed "r" ∷ Use.published (event "r") ∷ Use.published (event "s") ∷ [])
      new_bus)
    ≡ record {
      channels = record { id = 0; run_id = "r"; subscribed = true; buffer = event "r" ∷ [] } ∷ [];
      next = 1;
    }
unfolding run_uses step publish subscribe deliver
published_twice = refl

run_uses-AllFit_example : AllFit (run_uses uses new_bus)
run_uses-AllFit_example = run_uses-AllFit uses

deliver_all-eq-take_example :
    deliver_all (event "r" ∷ event "s" ∷ event "r" ∷ []) watching ≡ record watching {
      buffer = take capacity ([] ++ select (of_run "r") (event "r" ∷ event "s" ∷ event "r" ∷ []));
    }
deliver_all-eq-take_example =
    deliver_all-eq-take (event "r" ∷ event "s" ∷ event "r" ∷ []) watching refl (omega arith)
