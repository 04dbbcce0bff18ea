-- ===== src/Gateway/State.antt =====
-- `protocolState` of apps/control-plane/internal/httpapi/protocol.go, the service behind it, and
-- what the gateway takes from outside: the clock, hashes and JSON.
use epistemic_engine.Prelude.{
  ℕ, suc, String, Bool, false, not, Option, none, some, List, [], ◌∷◌, ◌++◌, ◌&&◌, ◌==◌, ltb,
  length, nat_eq, map, if◌then◌else◌,
}
use epistemic_engine.Go.Map.{Map, lookup, insert, delete, or_zero}
use epistemic_engine.Go.Numbers.{ℤ, pos, negsuc, Time, RawMessage}
use epistemic_engine.Go.Text.{or_default}
use epistemic_engine.Protocol.Types.{Event, Reason, Approval, DecisionResult, Certificate}
use epistemic_engine.Service.System.{Env, System}
use epistemic_engine.Gateway.Slots.{Slot, Slots, insert_slot, delete_slot}

-- A channel of `protocolStream`.
pub record Subscriber : Type 0 where
  pub id : ℕ
  pub buffer : List Event

abbrev pub stream_capacity : ℕ
stream_capacity = 32

pub record ProtocolState : Type 0 where
  pub events : Map Event
  pub idempotency : Map String
  pub events_by_decision : Map (List String)
  pub results : Map DecisionResult
  pub certificates : Map Certificate
  pub runs : Map String
  pub engine_decisions : Map String
  pub subscribers : List Subscriber
  pub sequences : Slots
  pub next_subscriber : ℕ

-- `newProtocolState`
abbrev pub new_protocol_state : ProtocolState
new_protocol_state = record {
  events = [];
  idempotency = [];
  events_by_decision = [];
  results = [];
  certificates = [];
  runs = [];
  engine_decisions = [];
  subscribers = [];
  sequences = [];
  next_subscriber = 0;
}

-- `ticks` counts the readings of `time.Now()`.
pub record Gateway : Type 0 where
  pub protocol : ProtocolState
  pub system : System
  pub ticks : ℕ

-- The values whose JSON a generated event carries.
pub data Generated : Type 0 where
  result : DecisionResult → Generated
  reasons : List Reason → Generated
  approval : Approval → Generated
  certificate : Certificate → Generated

pub record GatewayEnv : Type 0 where
  pub service : Env
  pub event_hash : Event → String  -- `epistemic.Hash`, "" on an error, which the code drops
  pub certificate_hash : Certificate → Option String  -- `epistemic.Hash`
  pub marshal_result : DecisionResult → Option RawMessage
  pub marshal_generated : Generated → RawMessage  -- `json.Marshal`, whose error the code drops
  pub now : ℕ → Time
  pub nanos : ℕ → String  -- `%x` of `UnixNano()`
  pub quote : String → String  -- `%q`
  pub decimal : ℕ → String  -- `%d`

-- `key`
abbrev pub key_of : Event → String
key_of e = or_default e.idempotency_key e.id

-- `partition`
abbrev pub partition_of : Event → String
partition_of e = or_default e.ordering.partition (or_default e.context.run_id e.context.decision_id)

abbrev pub is_positive : ℤ → Bool
is_positive (pos n) = ltb 0 n
is_positive (negsuc n) = false

-- `event.Ordering.Sequence > 0 && partition != ""`
abbrev pub is_ordered : Event → Bool
is_ordered e = is_positive e.ordering.sequence && not (partition_of e == "")

abbrev pub slot_of : Event → Slot
slot_of e = record { partition = partition_of e; number = e.ordering.sequence }

-- `h.protocol.eventsByDecision[id]`
abbrev pub listed : String → ProtocolState → List String
listed decision_id p = or_zero [] (lookup decision_id p.events_by_decision)

-- `if event.Context.DecisionID != "" { ... }`
unfoldable pub list_event : String → String → Map (List String) → Map (List String)
list_event decision_id id lists =
    if decision_id == ""
    then lists
    else insert decision_id (or_zero [] (lookup decision_id lists) ++ id ∷ []) lists

-- The writes under the lock, behind the checks.
unfoldable pub add : Event → ProtocolState → ProtocolState
unfolding list_event
add e p = record p {
  sequences = if is_ordered e then insert_slot (slot_of e) e.id p.sequences else p.sequences;
  events = insert e.id e p.events;
  idempotency = insert (key_of e) e.id p.idempotency;
  events_by_decision = list_event e.context.decision_id e.id p.events_by_decision;
}

-- `append(ids[:index], ids[index+1:]...)` at the first index of the identifier.
unfoldable pub remove_first : String → List String → List String
remove_first id [] = []
remove_first id (x ∷ xs) = let rest = remove_first id xs in if x == id then xs else x ∷ rest

-- The loop over `ids`, which writes the list only where it finds the identifier.
unfoldable pub unlist_event : String → String → Map (List String) → Map (List String)
unfolding remove_first
unlist_event decision_id id lists = elim (lookup decision_id lists) [
  | none ↦ lists
  | some ids ↦ insert decision_id (remove_first id ids) lists
]

-- The writes that take an event back.
unfoldable pub undo : Event → ProtocolState → ProtocolState
unfolding unlist_event
undo e p = record p {
  events = delete e.id p.events;
  idempotency = delete (key_of e) p.idempotency;
  sequences = if is_ordered e then delete_slot (slot_of e) p.sequences else p.sequences;
  events_by_decision = unlist_event e.context.decision_id e.id p.events_by_decision;
}

-- `select { case subscriber <- event: default: }`
unfoldable pub offer : Event → Subscriber → Subscriber
offer e s =
    if ltb (length s.buffer) stream_capacity then record s { buffer = s.buffer ++ e ∷ [] } else s

unfoldable pub broadcast : Event → ProtocolState → ProtocolState
unfolding offer
broadcast e p = record p { subscribers = map (offer e) p.subscribers }

-- `protocolStream` registers a channel, and its deferred function deletes and closes it.
unfoldable pub subscribe : ProtocolState → ℕ × ProtocolState
subscribe p = (
  p.next_subscriber,
  record p {
    next_subscriber = suc p.next_subscriber;
    subscribers = record { id = p.next_subscriber; buffer = [] } ∷ p.subscribers;
  },
)

-- The end of the handler: `delete(h.protocol.subscribers, id)`.
unfoldable pub drop_subscriber : ℕ → List Subscriber → List Subscriber
drop_subscriber id [] = []
drop_subscriber id (s ∷ ss) =
    let rest = drop_subscriber id ss in if nat_eq s.id id then rest else s ∷ rest

unfoldable pub unsubscribe : ℕ → ProtocolState → ProtocolState
unfolding drop_subscriber
unsubscribe id p = record p { subscribers = drop_subscriber id p.subscribers }

abbrev pub drop_first : List Event → List Event
drop_first [] = []
drop_first (e ∷ es) = es

-- `case event := <-channel`
unfoldable pub receive : ℕ → ProtocolState → ProtocolState
receive id p = record p {
  subscribers =
      map (λ s. if nat_eq s.id id then record s { buffer = drop_first s.buffer } else s)
        p.subscribers;
}
