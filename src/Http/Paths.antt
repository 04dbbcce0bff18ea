-- ===== src/Http/Paths.antt =====
-- Every handler of apps/control-plane/internal/httpapi/handler.go is reached by its own method and path.
use epistemic_engine.Prelude.{
  String, true, false, List, [], ◌∷◌, ◌≡◌, refl, sym, ◌∙◌, ap, ◌==◌, All, ◌&&◌, not, arith,
}
use Prim.Native.String.{◌++◌}
use text.Mathlib.TextLemmas.{nil-append, cons-append, append-nil}
use epistemic_engine.Go.Split.{
  join, lacks, is_char, split-join, trim_right-append, trim_left-cons, nil_or_not,
}
use epistemic_engine.Go.Text.{concat, trim_left, trim_right}
use epistemic_engine.Http.Routes.{
  Route, route, segments, create_account, account_dashboard, create_project, create_ai_system,
  create_connection, ingest, revoke_connection, tools, pipeline, emit, batch, evaluate_request,
  protocol_stream, decision, decision_events, create_run, add_event, analyze, graph, stream, plan,
  execute, evaluate, certificate, certificate_report, not_found,
}

-- The method of a request for a handler.
abbrev pub method_of : Route → String
method_of create_account = "POST"
method_of (account_dashboard id) = "GET"
method_of (create_project id) = "POST"
method_of (create_ai_system id) = "POST"
method_of (create_connection id) = "POST"
method_of ingest = "POST"
method_of (revoke_connection id) = "DELETE"
method_of tools = "GET"
method_of pipeline = "POST"
method_of emit = "POST"
method_of batch = "POST"
method_of evaluate_request = "POST"
method_of protocol_stream = "GET"
method_of (decision id) = "GET"
method_of (decision_events id) = "GET"
method_of create_run = "POST"
method_of (add_event id) = "POST"
method_of (analyze id) = "POST"
method_of (graph id) = "GET"
method_of (stream id) = "GET"
method_of (plan id) = "POST"
method_of (execute id) = "POST"
method_of (evaluate id) = "POST"
method_of (certificate id) = "GET"
method_of (certificate_report id) = "GET"
method_of not_found = "GET"

-- The segments of its path behind the first, "v1".
abbrev pub tail_of : Route → List String
tail_of create_account = "accounts" ∷ []
tail_of (account_dashboard id) = "accounts" ∷ id ∷ "dashboard" ∷ []
tail_of (create_project id) = "accounts" ∷ id ∷ "projects" ∷ []
tail_of (create_ai_system id) = "projects" ∷ id ∷ "ai-systems" ∷ []
tail_of (create_connection id) = "projects" ∷ id ∷ "connections" ∷ []
tail_of ingest = "ingest" ∷ []
tail_of (revoke_connection id) = "connections" ∷ id ∷ []
tail_of tools = "tools" ∷ []
tail_of pipeline = "tools" ∷ "github-actions" ∷ "pipelines" ∷ []
tail_of emit = "events" ∷ []
tail_of batch = "events:batch" ∷ []
tail_of evaluate_request = "decisions:evaluate" ∷ []
tail_of protocol_stream = "stream" ∷ []
tail_of (decision id) = "decisions" ∷ id ∷ []
tail_of (decision_events id) = "decisions" ∷ id ∷ "events" ∷ []
tail_of create_run = "runs" ∷ []
tail_of (add_event id) = "runs" ∷ id ∷ "events" ∷ []
tail_of (analyze id) = "runs" ∷ id ∷ "analyze" ∷ []
tail_of (graph id) = "runs" ∷ id ∷ "graph" ∷ []
tail_of (stream id) = "runs" ∷ id ∷ "stream" ∷ []
tail_of (plan id) = "decisions" ∷ id ∷ "plan" ∷ []
tail_of (execute id) = "verifications" ∷ id ∷ "execute" ∷ []
tail_of (evaluate id) = "decisions" ∷ id ∷ "evaluate" ∷ []
tail_of (certificate id) = "decisions" ∷ id ∷ "certificate" ∷ []
tail_of (certificate_report id) = "decisions" ∷ id ∷ "certificate" ∷ "report" ∷ []
tail_of not_found = "none" ∷ []

abbrev pub parts_of : Route → List String
parts_of r = "v1" ∷ tail_of r

-- The identifier in it, or a text that can stand for one.
abbrev pub id_of : Route → String
id_of (account_dashboard id) = id
id_of (create_project id) = id
id_of (create_ai_system id) = id
id_of (create_connection id) = id
id_of (revoke_connection id) = id
id_of (decision id) = id
id_of (decision_events id) = id
id_of (add_event id) = id
id_of (analyze id) = id
id_of (graph id) = id
id_of (stream id) = id
id_of (plan id) = id
id_of (execute id) = id
id_of (evaluate id) = id
id_of (certificate id) = id
id_of (certificate_report id) = id
id_of _ = "id"

route-parts_of : (r : Route) → route (method_of r) (parts_of r) ≡ r
unfolding route
route-parts_of create_account = refl
route-parts_of (account_dashboard id) = refl
route-parts_of (create_project id) = refl
route-parts_of (create_ai_system id) = refl
route-parts_of (create_connection id) = refl
route-parts_of ingest = refl
route-parts_of (revoke_connection id) = refl
route-parts_of tools = refl
route-parts_of pipeline = refl
route-parts_of emit = refl
route-parts_of batch = refl
route-parts_of evaluate_request = refl
route-parts_of protocol_stream = refl
route-parts_of (decision id) = refl
route-parts_of (decision_events id) = refl
route-parts_of create_run = refl
route-parts_of (add_event id) = refl
route-parts_of (analyze id) = refl
route-parts_of (graph id) = refl
route-parts_of (stream id) = refl
route-parts_of (plan id) = refl
route-parts_of (execute id) = refl
route-parts_of (evaluate id) = refl
route-parts_of (certificate id) = refl
route-parts_of (certificate_report id) = refl
route-parts_of not_found = refl

-- A segment: not empty, and without a slash.
pub record IsSegment (s : String) : Type 0 where
  pub whole : lacks b'/' s ≡ true
  pub named : (s == "") ≡ false

trim_right-lacks : (s : String) → lacks b'/' s ≡ true → trim_right (is_char b'/') s ≡ s
unfolding trim_right lacks
trim_right-lacks String.[] h = refl
trim_right-lacks (String.◌∷◌ c s) h =
    let own : is_char b'/' c ≡ false = ground arith in
    rw (trim_right, own, trim_right-lacks s (ground arith)) refl

slash_not_empty : ("/" == "") ≡ false
slash_not_empty = refl

join-named :
    (s : String) (ss : List String) → All IsSegment (s ∷ ss) → (join "/" (s ∷ ss) == "") ≡ false
unfolding join
join-named s [] h = h.0.named
join-named s (t ∷ ts) h =
    nil_or_not s ("/" ++ join "/" (t ∷ ts))
      (nil_or_not "/" (join "/" (t ∷ ts)) (join-named t ts h.1))

trim_right-join :
    (s : String) (ss : List String)
    → All IsSegment (s ∷ ss)
    → trim_right (is_char b'/') (join "/" (s ∷ ss)) ≡ join "/" (s ∷ ss)
unfolding join
trim_right-join s [] h = trim_right-lacks s h.0.whole
trim_right-join s (t ∷ ts) h =
    let rest = join "/" (t ∷ ts) in
    let named = join-named t ts h.1 in
    trim_right-append (is_char b'/') s ("/" ++ rest) (nil_or_not "/" rest named)
      (trim_right-append (is_char b'/') "/" rest named (trim_right-join t ts h.1))

trim_left-append :
    (s t : String)
    → lacks b'/' s ≡ true
    → (s == "") ≡ false
    → trim_left (is_char b'/') (s ++ t) ≡ s ++ t
unfolding lacks
trim_left-append String.[] t h n = cc
trim_left-append (String.◌∷◌ c s) t h n =
    let own : is_char b'/' c ≡ false = ground arith in
    rw cons-append (trim_left-cons (is_char b'/') c (s ++ t) own)

append_nothing : (s : String) → s ++ "" ≡ s
append_nothing s = append-nil s

trim_left-join :
    (s : String) (ss : List String)
    → All IsSegment (s ∷ ss)
    → trim_left (is_char b'/') (join "/" (s ∷ ss)) ≡ join "/" (s ∷ ss)
unfolding join
trim_left-join s [] h =
    ap (trim_left (is_char b'/')) (sym (append_nothing s))
    ∙ trim_left-append s "" h.0.whole h.0.named
    ∙ append_nothing s
trim_left-join s (t ∷ ts) h = trim_left-append s ("/" ++ join "/" (t ∷ ts)) h.0.whole h.0.named

IsSegment-lacks : (ss : List String) → All IsSegment ss → All (λ t. lacks b'/' t ≡ true) ss
IsSegment-lacks [] h = tt
IsSegment-lacks (s ∷ ss) h = (h.0.whole, IsSegment-lacks ss h.1)

-- A path with a slash before every segment.
abbrev pub path_of_parts : List String → String
path_of_parts parts = concat "/" (join "/" parts)

segments-path :
    (s : String) (ss : List String)
    → All IsSegment (s ∷ ss)
    → segments (path_of_parts (s ∷ ss)) ≡ s ∷ ss
unfolding segments trim_left
segments-path s ss h =
    let path = join "/" (s ∷ ss) in
    let start : path_of_parts (s ∷ ss) ≡ String.◌∷◌ "/" path =
      cons-append "/" "" path ∙ ap (λ r. String.◌∷◌ "/" r) (nil-append path) in
    rw (start, trim_left-join s ss h, trim_right-join s ss h)
      (split-join b'/' "/" s ss refl (IsSegment-lacks (s ∷ ss) h))

segment : (s : String) → (lacks b'/' s && not (s == "")) ≡ true → IsSegment s
segment s h = record { whole = ground arith; named = ground arith }

tail_of-AllSegments : (r : Route) → IsSegment (id_of r) → All IsSegment (tail_of r)
unfolding lacks
tail_of-AllSegments create_account h = (segment _ refl, tt)
tail_of-AllSegments (account_dashboard id) h = (segment _ refl, (h, (segment _ refl, tt)))
tail_of-AllSegments (create_project id) h = (segment _ refl, (h, (segment _ refl, tt)))
tail_of-AllSegments (create_ai_system id) h = (segment _ refl, (h, (segment _ refl, tt)))
tail_of-AllSegments (create_connection id) h = (segment _ refl, (h, (segment _ refl, tt)))
tail_of-AllSegments ingest h = (segment _ refl, tt)
tail_of-AllSegments (revoke_connection id) h = (segment _ refl, (h, tt))
tail_of-AllSegments tools h = (segment _ refl, tt)
tail_of-AllSegments pipeline h = (segment _ refl, (segment _ refl, (segment _ refl, tt)))
tail_of-AllSegments emit h = (segment _ refl, tt)
tail_of-AllSegments batch h = (segment _ refl, tt)
tail_of-AllSegments evaluate_request h = (segment _ refl, tt)
tail_of-AllSegments protocol_stream h = (segment _ refl, tt)
tail_of-AllSegments (decision id) h = (segment _ refl, (h, tt))
tail_of-AllSegments (decision_events id) h = (segment _ refl, (h, (segment _ refl, tt)))
tail_of-AllSegments create_run h = (segment _ refl, tt)
tail_of-AllSegments (add_event id) h = (segment _ refl, (h, (segment _ refl, tt)))
tail_of-AllSegments (analyze id) h = (segment _ refl, (h, (segment _ refl, tt)))
tail_of-AllSegments (graph id) h = (segment _ refl, (h, (segment _ refl, tt)))
tail_of-AllSegments (stream id) h = (segment _ refl, (h, (segment _ refl, tt)))
tail_of-AllSegments (plan id) h = (segment _ refl, (h, (segment _ refl, tt)))
tail_of-AllSegments (execute id) h = (segment _ refl, (h, (segment _ refl, tt)))
tail_of-AllSegments (evaluate id) h = (segment _ refl, (h, (segment _ refl, tt)))
tail_of-AllSegments (certificate id) h = (segment _ refl, (h, (segment _ refl, tt)))
tail_of-AllSegments (certificate_report id) h =
    (segment _ refl, (h, (segment _ refl, (segment _ refl, tt))))
tail_of-AllSegments not_found h = (segment _ refl, tt)

v1-IsSegment : IsSegment "v1"
unfolding lacks
v1-IsSegment = segment "v1" refl

-- A request for a handler, with its method and the path that names it, reaches this handler and hands
-- it the identifier of the path, whatever it is, if it is not empty and holds no slash: no earlier
-- route takes the request.
pub route-segments :
    (r : Route)
    → IsSegment (id_of r)
    → route (method_of r) (segments (path_of_parts (parts_of r))) ≡ r
route-segments r h =
    rw (segments-path "v1" (tail_of r) (v1-IsSegment, tail_of-AllSegments r h)) (route-parts_of r)
