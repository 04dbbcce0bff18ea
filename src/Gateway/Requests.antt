-- ===== src/Gateway/Requests.antt =====
-- The handlers that take events: `protocolEmit` and `protocolBatch` of
-- apps/control-plane/internal/httpapi/protocol.go. A body that does not decode is `none`.
use epistemic_engine.Prelude.{
  ℕ, String, Bool, true, false, Option, none, some, List, [], ◌∷◌, ◌++◌, ltb, length, if◌then◌else◌,
}
use epistemic_engine.Go.Map.{Map, insert}
use epistemic_engine.Protocol.Types.{Event}
use epistemic_engine.Gateway.Failures.{Refusal, failure, failure_of}
use epistemic_engine.Gateway.State.{Gateway, GatewayEnv}
use epistemic_engine.Gateway.Accept.{Acceptance, created, duplicate, refused, accept}
use epistemic_engine.Gateway.Context.{merge_context_header}
use epistemic_engine.Gateway.Reply.{Reply, ok, fail, Step, stop, give}

-- `maxProtocolBatch`
abbrev pub max_batch : ℕ
max_batch = 100

abbrev pub in_context : String → Event → Event
in_context header e = record e { context = merge_context_header e.context header }

-- `writeProtocolError(w, err)` and `return` where the error is not nil.
unfoldable pub answer_of : Acceptance → Reply Bool
answer_of created = ok true
answer_of duplicate = ok false
answer_of (refused x) = fail (failure_of x)

-- The answer of `protocolBatch`: identifiers of accepted and of repeated events, and errors.
pub record BatchReply : Type 0 where
  pub accepted : List String
  pub repeated : List String
  pub errors : Map Refusal

abbrev pub no_events : BatchReply
no_events = record { accepted = []; repeated = []; errors = [] }

unfoldable pub tally : String → Acceptance → BatchReply → BatchReply
tally id created r = record r { accepted = r.accepted ++ id ∷ [] }
tally id duplicate r = record r { repeated = r.repeated ++ id ∷ [] }
tally id (refused x) r = record r { errors = insert id x r.errors }

module _ (env : GatewayEnv) where
  unfoldable pub accept_step : Event → Step Bool
  unfolding answer_of
  accept_step e g = let (answer, g') = accept env e g in (answer_of answer, g')

  -- `protocolEmit`: whether the event is new.
  unfoldable pub emit : String → Option Event → Step Bool
  unfolding accept_step
  emit header none g = stop (failure 400 "invalid_message") g
  emit header (some e) g = accept_step (in_context header e) g

  -- The loop of `protocolBatch`.
  unfoldable pub take_events : String → BatchReply → List Event → Gateway → BatchReply × Gateway
  unfolding tally
  take_events header r [] g = (r, g)
  take_events header r (e ∷ es) g =
      let (answer, g') = accept env (in_context header e) g in
      take_events header (tally e.id answer r) es g'

  -- `protocolBatch`
  unfoldable pub batch : String → Option (List Event) → Step BatchReply
  unfolding take_events
  batch header none g = stop (failure 400 "invalid_message") g
  batch header (some es) g =
      if ltb max_batch (length es)
      then stop (failure 413 "limit_exceeded") g
      else let (r, g') = take_events header no_events es g in give r g'
