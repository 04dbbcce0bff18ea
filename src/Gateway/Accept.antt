-- ===== src/Gateway/Accept.antt =====
-- `acceptProtocolEvent` of apps/control-plane/internal/httpapi/protocol.go. The lock is held from
-- the lookups to the writes, so that they are one step; so is the call of the service behind it here.
use epistemic_engine.Prelude.{
  String, Bool, true, false, not, Option, none, some, ◌&&◌, ◌||◌, ◌==◌, leb, if◌then◌else◌,
}
use epistemic_engine.Go.Effect.{Result, ok, err}
use epistemic_engine.Go.Map.{lookup, or_zero}
use epistemic_engine.Go.Numbers.{ℤ, pos, negsuc}
use epistemic_engine.Domain.Run as Run
use epistemic_engine.Protocol.Types.{Event}
use epistemic_engine.Protocol.Validation.{validate_event}
use epistemic_engine.Service.System.{System}
use epistemic_engine.Service.Runs.{AddEventInput, add_event}
use epistemic_engine.Gateway.Failures.{
  Refusal, failed, unknown_parent, parent_order, sequence_taken, service, failure, classify,
}
use epistemic_engine.Gateway.Slots.{lookup_slot}
use epistemic_engine.Gateway.State.{
  ProtocolState, Gateway, GatewayEnv, key_of, partition_of, is_positive, is_ordered, slot_of, add,
  undo, broadcast,
}

pub data Acceptance : Type 0 where
  created duplicate : Acceptance
  refused : Refusal → Acceptance

-- `m >= n` for the positive numbers that are compared.
abbrev at_least : ℤ → ℤ → Bool
at_least (pos m) (pos n) = leb n m
at_least (pos m) (negsuc n) = true
at_least (negsuc m) (pos n) = false
at_least (negsuc m) (negsuc n) = leb m n

-- `if event.Context.ParentID != "" { ... }`
unfoldable pub parent_error : Event → ProtocolState → Option Refusal
parent_error e p =
    if e.context.parent_id == "" then none else elim (lookup e.context.parent_id p.events) [
      | none ↦ some (unknown_parent e.context.parent_id)
      | some parent ↦
          if is_positive e.ordering.sequence
            && is_positive parent.ordering.sequence
            && parent.ordering.partition == e.ordering.partition
            && at_least parent.ordering.sequence e.ordering.sequence
          then some parent_order
          else none
    ]

-- The check of `h.protocol.sequences`.
unfoldable pub sequence_error : Event → ProtocolState → Option Refusal
sequence_error e p =
    if not (is_ordered e) then none else elim (lookup_slot (slot_of e) p.sequences) [
      | none ↦ none
      | some id ↦
          if id == "" || id == e.id
          then none
          else some (sequence_taken e.ordering.sequence (partition_of e) id)
    ]

unfoldable pub order_error : Event → ProtocolState → Option Refusal
unfolding parent_error sequence_error
order_error e p = elim (parent_error e p) [ some x ↦ some x | none ↦ sequence_error e p ]

abbrev pub input_of : Event → AddEventInput
input_of e = record {
  external_id = e.id;
  sequence = e.ordering.sequence;
  type = e.type;
  source = e.source.name;
  correlation_id = e.context.correlation;
  occurred_at = e.time;
  payload = e.payload;
}

abbrev conflict : Acceptance
conflict = refused (failed (failure 409 "conflict"))

module _ (env : GatewayEnv) where
  -- Behind the call of `h.service.AddEvent`, with what it left of the system.
  unfoldable pub settle : Event → Result Run.Event → System → Gateway → Acceptance × Gateway
  settle e (ok stored) s g = (created, record g { system = s; protocol = broadcast e g.protocol })
  settle e (err x) s g =
      (refused (service x), record g { system = s; protocol = undo e g.protocol })

  -- `if runID != "" { ... }`, and the subscribers.
  unfoldable pub forward : Event → String → Gateway → Acceptance × Gateway
  unfolding settle
  forward e run_id g =
      if run_id == ""
      then (created, record g { protocol = broadcast e g.protocol })
      else let (r, s) = add_event env.service run_id (input_of e) g.system in settle e r s g

  unfoldable pub store : Event → Gateway → Acceptance × Gateway
  unfolding forward
  store e g =
      forward e (or_zero "" (lookup e.context.decision_id g.protocol.runs))
        (record g { protocol = add e g.protocol })

  -- For an event whose identifier and key are new.
  unfoldable pub accept_new : Event → Gateway → Acceptance × Gateway
  unfolding order_error store
  accept_new e g = elim (order_error e g.protocol) [ some x ↦ (refused x, g) | none ↦ store e g ]

  unfoldable pub accept_valid : Event → Gateway → Acceptance × Gateway
  unfolding accept_new
  accept_valid e g = elim (lookup e.id g.protocol.events) [
    | some existing ↦
        (if env.event_hash existing == env.event_hash e then duplicate else conflict, g)
    | none ↦ elim (lookup (key_of e) g.protocol.idempotency) [
      | some id ↦ (if id == e.id then duplicate else conflict, g)
      | none ↦ accept_new e g
    ]
  ]

  unfoldable pub accept : Event → Gateway → Acceptance × Gateway
  unfolding accept_valid
  accept e g = elim (validate_event e) [
    | some x ↦ (refused (failed (classify env.quote env.decimal x)), g)
    | none ↦ accept_valid e g
  ]
