-- ===== src/Http/Routes.antt =====
-- The `switch` of `ServeHTTP` in apps/control-plane/internal/httpapi/handler.go: which handler takes a
-- method and the segments of a path. The cases that ask for different numbers of segments are apart.
use epistemic_engine.Prelude.{String, List, [], ◌∷◌, ◌&&◌, ◌||◌, ◌==◌, if◌then◌else◌}
use epistemic_engine.Go.Split.{split, is_char}
use epistemic_engine.Go.Text.{trim_left, trim_right}

-- The handlers, with the identifier that they take from the path.
pub data Route : Type 0 where
  create_account ingest tools pipeline emit batch evaluate_request protocol_stream create_run
        not_found :
      Route
  account_dashboard create_project create_ai_system create_connection revoke_connection decision
        decision_events add_event analyze graph stream plan execute evaluate certificate
        certificate_report :
      String → Route

unfoldable pub route_of_2 : String → String → Route
route_of_2 method a =
    if method == "POST" && a == "accounts"
    then create_account
    else if method == "POST" && a == "ingest"
    then ingest
    else if method == "GET" && a == "tools"
    then tools
    else if method == "POST" && a == "events"
    then emit
    else if method == "POST" && a == "events:batch"
    then batch
    else if method == "POST" && a == "decisions:evaluate"
    then evaluate_request
    else if method == "GET" && a == "stream"
    then protocol_stream
    else if method == "POST" && a == "runs"
    then create_run
    else not_found

unfoldable pub route_of_3 : String → String → String → Route
route_of_3 method a b =
    if method == "DELETE" && a == "connections"
    then revoke_connection b
    else if method == "GET" && a == "decisions"
    then decision b
    else not_found

unfoldable pub route_of_4 : String → String → String → String → Route
route_of_4 method a b c =
    if method == "GET" && a == "accounts" && c == "dashboard"
    then account_dashboard b
    else if method == "POST" && a == "accounts" && c == "projects"
    then create_project b
    else if method == "POST" && a == "projects" && c == "ai-systems"
    then create_ai_system b
    else if method == "POST" && a == "projects" && c == "connections"
    then create_connection b
    else if method == "POST" && a == "tools" && b == "github-actions" && c == "pipelines"
    then pipeline
    else if method == "GET" && a == "decisions" && c == "events"
    then decision_events b
    else if method == "POST" && a == "runs" && c == "events"
    then add_event b
    else if method == "POST" && a == "runs" && c == "analyze"
    then analyze b
    else if method == "GET" && a == "runs" && c == "graph"
    then graph b
    else if method == "GET" && a == "runs" && c == "stream"
    then stream b
    else if method == "POST" && a == "decisions" && (c == "plan" || c == "verification-plan")
    then plan b
    else if method == "POST" && a == "verifications" && c == "execute"
    then execute b
    else if method == "POST" && a == "decisions" && c == "evaluate"
    then evaluate b
    else if method == "GET" && a == "decisions" && c == "certificate"
    then certificate b
    else not_found

unfoldable pub route_of_5 : String → String → String → String → String → Route
route_of_5 method a b c d =
    if method == "GET" && a == "runs" && c == "events" && d == "stream"
    then stream b
    else if method == "GET" && a == "decisions" && c == "certificate" && d == "report"
    then certificate_report b
    else not_found

unfoldable pub route : String → List String → Route
unfolding route_of_2 route_of_3 route_of_4 route_of_5
route method (v ∷ a ∷ []) = if v == "v1" then route_of_2 method a else not_found
route method (v ∷ a ∷ b ∷ []) = if v == "v1" then route_of_3 method a b else not_found
route method (v ∷ a ∷ b ∷ c ∷ []) = if v == "v1" then route_of_4 method a b c else not_found
route method (v ∷ a ∷ b ∷ c ∷ d ∷ []) = if v == "v1" then route_of_5 method a b c d else not_found
route method _ = not_found

-- `strings.Split(strings.Trim(path, "/"), "/")`
unfoldable pub segments : String → List String
segments path = split b'/' (trim_right (is_char b'/') (trim_left (is_char b'/') path))
