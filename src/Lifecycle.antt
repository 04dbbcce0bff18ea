-- ===== src/Lifecycle.antt =====
-- apps/control-plane/internal/lifecycle/bus.go: the fan-out of lifecycle events. A channel stands
-- for the `chan domain.LifecycleEvent` that its subscriber reads; it stays in the list when it is
-- unsubscribed and closed, since the subscriber may still drain it.
pub mod Delivery
mod Examples
use epistemic_engine.Prelude.{
  ℕ, ◌+◌, String, Bool, true, false, Option, none, some, List, [], ◌∷◌, ◌++◌, ◌&&◌, ◌==◌, map, tail,
  ltb, length, nat_eq, if◌then◌else◌,
}
use epistemic_engine.Domain.Run.{LifecycleEvent}

pub record Channel : Type 0 where
  pub id : ℕ
  pub run_id : String
  pub subscribed : Bool
  pub buffer : List LifecycleEvent

pub record Bus : Type 0 where
  pub channels : List Channel
  pub next : ℕ

-- `make(chan domain.LifecycleEvent, 16)`
abbrev pub capacity : ℕ
capacity = 16

abbrev pub new_bus : Bus
new_bus = record { channels = []; next = 0 }

-- `select { case subscriber <- event: default: }` for a subscriber of the event's run.
unfoldable pub deliver : LifecycleEvent → Channel → Channel
deliver event c =
    if c.subscribed && c.run_id == event.run_id && ltb (length c.buffer) capacity
    then record c { buffer = c.buffer ++ event ∷ [] }
    else c

unfoldable pub publish : LifecycleEvent → Bus → Bus
publish event b = record b { channels = map (deliver event) b.channels }

-- The new channel's number, and the bus with it.
unfoldable pub subscribe : String → Bus → ℕ × Bus
subscribe run_id b = (
  b.next,
  record {
    channels = record { id = b.next; run_id = run_id; subscribed = true; buffer = [] } ∷ b.channels;
    next = b.next + 1;
  },
)

cancel : ℕ → Channel → Channel
cancel id c = if nat_eq c.id id then record c { subscribed = false } else c

-- The function that `Subscribe` returns: `delete`, then `close`. It is called once.
unfoldable pub unsubscribe : ℕ → Bus → Bus
unfolding cancel
unsubscribe id b = record b { channels = map (cancel id) b.channels }

drain : ℕ → Channel → Channel
drain id c = if nat_eq c.id id then record c { buffer = tail c.buffer } else c

-- The subscriber takes the oldest event of its channel.
unfoldable pub receive : ℕ → Bus → Bus
unfolding drain
receive id b = record b { channels = map (drain id) b.channels }
