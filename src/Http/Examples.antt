-- ===== src/Http/Examples.antt =====
-- The routes of apps/control-plane/internal/httpapi/handler.go at a concrete request.
use epistemic_engine.Prelude.{◌≡◌, refl}
use epistemic_engine.Go.Split.{lacks, split}
use epistemic_engine.Go.Text.{trim_left, trim_right}
use epistemic_engine.Http.Routes.{route, segments, decision_events, plan}
use epistemic_engine.Http.Paths.{parts_of, path_of_parts, route-segments}

route-segments_example :
    route "GET" (segments (path_of_parts (parts_of (decision_events "d:1"))))
    ≡ decision_events "d:1"
unfolding lacks
route-segments_example =
    route-segments (decision_events "d:1") (record { whole = refl; named = refl })

other_plan : route "POST" (segments "/v1/decisions/d/verification-plan/") ≡ plan "d"
unfolding route segments split trim_right trim_left
other_plan = refl
