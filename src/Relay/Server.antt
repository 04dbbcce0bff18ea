-- ===== src/Relay/Server.antt =====
-- `relay.ServeHTTP`, `process` and `redactEvent` of cmd/epistemic-relay/main.go. Decoding and encoding
-- of JSON are parameters; the body of a request is one.
use epistemic_engine.Prelude.{
  ℕ, String, Bool, Option, none, some, List, [], ◌∷◌, ◌++◌, ◌&&◌, ◌==◌, map, ltb, length,
  if◌then◌else◌,
}
use epistemic_engine.Go.Numbers.{RawMessage}
use epistemic_engine.Protocol.Types.{protocol_version, Event, DecisionRequest, DecisionResult}
use epistemic_engine.Protocol.Validation.{validate_event, event_types}
use epistemic_engine.Protocol.Provider.{Provider, Failure, refused}
use epistemic_engine.Gateway.Queries.{Capabilities}
use epistemic_engine.Relay.Redact.{Json, redact}

pub record RelayEnv : Type 0 where
  pub lower : String → String  -- `strings.ToLower`
  pub unmarshal : RawMessage → Option Json
  pub marshal : Json → RawMessage
  pub decode_event : RawMessage → Option Event
  pub decode_batch : RawMessage → Option (List Event)
  pub decode_request : RawMessage → Option DecisionRequest

pub record Request : Type 0 where
  pub method : String
  pub path : String
  pub body : RawMessage

-- A status with the code of an error, or one of the answers.
pub data Answer : Type 0 where
  capabilities : Capabilities → Answer
  accepted : List String → Answer
  decision : DecisionResult → Answer
  failed : ℕ → String → Answer

abbrev invalid_message : Answer
invalid_message = failed 400 "invalid_message"

abbrev is_route : Request → String → String → Bool
is_route request method path = request.method == method && request.path == path

module _ {S : Type 0} (env : RelayEnv) (provider : Provider S) (keys : List String)
    (max_batch : ℕ) where
  -- `redactEvent`
  unfoldable pub redact_event : Event → Event
  unfolding redact
  redact_event e = elim (env.unmarshal e.payload) [
    | none ↦ e
    | some v ↦ record e { payload = env.marshal (redact env.lower keys v) }
  ]

  -- `process`
  unfoldable pub process : Event → S → Option Failure × S
  unfolding redact_event
  process e s = elim (validate_event e) [
    | some x ↦ (some (refused x), s)
    | none ↦ provider.emit (redact_event e) s
  ]

  unfoldable pub serve_event : Option Event → S → Answer × S
  unfolding process
  serve_event none s = (invalid_message, s)
  serve_event (some e) s =
      let (error, s') = process e s in
      elim error [ some x ↦ (invalid_message, s') | none ↦ (accepted (e.id ∷ []), s') ]

  -- The loop over the events of a batch, up to the first error.
  unfoldable pub process_all : List Event → List String → S → Answer × S
  unfolding process
  process_all [] ids s = (accepted ids, s)
  process_all (e ∷ es) ids s =
      let (error, s') = process e s in
      elim error [ some x ↦ (invalid_message, s') | none ↦ process_all es (ids ++ e.id ∷ []) s' ]

  unfoldable pub serve_batch : Option (List Event) → S → Answer × S
  unfolding process_all
  serve_batch none s = (invalid_message, s)
  serve_batch (some es) s =
      if ltb max_batch (length es) then (failed 413 "limit_exceeded", s) else process_all es [] s

  unfoldable pub serve_request : Option DecisionRequest → S → Answer × S
  unfolding redact_event
  serve_request none s = (invalid_message, s)
  serve_request (some r) s =
      let (result, error, s') =
        provider.evaluate (record r { events = map redact_event r.events }) s in
      elim error [ some x ↦ (invalid_message, s') | none ↦ (decision result, s') ]

  abbrev pub discovery : Capabilities
  discovery = record {
    protocol_versions = protocol_version ∷ [];
    transports = "http-json" ∷ [];
    event_types = event_types;
    decision_statuses = "allow" ∷ "block" ∷ "indeterminate" ∷ "error" ∷ [];
    features = "relay" ∷ "redaction" ∷ "archive" ∷ "retry" ∷ "batch" ∷ "file-watch" ∷ [];
    limits = record { max_event_bytes = 2097152; max_batch_size = max_batch };
  }

  -- `ServeHTTP`
  unfoldable pub serve : Request → S → Answer × S
  unfolding serve_event serve_batch serve_request
  serve r s =
      if is_route r "GET" "/.well-known/epistemic"
      then (capabilities discovery, s)
      else if is_route r "POST" "/v1/events"
      then serve_event (env.decode_event r.body) s
      else if is_route r "POST" "/v1/events:batch"
      then serve_batch (env.decode_batch r.body) s
      else if is_route r "POST" "/v1/decisions:evaluate"
      then serve_request (env.decode_request r.body) s
      else (failed 404 "not_found", s)
