-- ===== src/Gateway/Invariant/Capacity.antt =====
-- The channels of `protocolStream` (apps/control-plane/internal/httpapi/protocol.go) never hold more than
-- they have room for.
use epistemic_engine.Prelude.{
  ℕ, ◌≤◌, List, [], ◌∷◌, arith, All, map, length, length-append, ltb, nat_eq, Bool-cases, inl, inr,
}
use epistemic_engine.Protocol.Types.{Event}
use epistemic_engine.Gateway.State.{
  Subscriber, ProtocolState, stream_capacity, offer, broadcast, subscribe, drop_subscriber,
  unsubscribe, drop_first, receive,
}

-- A channel within its capacity.
pub record Fits (s : Subscriber) : Type 0 where
  pub room : length s.buffer ≤ stream_capacity

abbrev pub AllFit : ProtocolState → Type 0
AllFit p = All Fits p.subscribers

All-map :
    {A : Type 0} (P : A → Type 0) (f : A → A)
    → ((x : A) → P x → P (f x))
    → (xs : List A) → All P xs
    → All P (map f xs)
All-map P f keep [] h = tt
All-map P f keep (x ∷ xs) h = (keep x h.0, All-map P f keep xs h.1)

offer-Fits : (e : Event) (s : Subscriber) → Fits s → Fits (offer e s)
unfolding offer
offer-Fits e s h = elim (Bool-cases (ltb (length s.buffer) stream_capacity)) [
  | inr full ↦ rw (offer, full) h
  | inl room ↦ rw (offer, room) (record { room = ground (arith, length-append s.buffer (e ∷ [])) })
]

pub broadcast-AllFit : (e : Event) (p : ProtocolState) → AllFit p → AllFit (broadcast e p)
unfolding broadcast
broadcast-AllFit e p h = All-map Fits (offer e) (offer-Fits e) p.subscribers h

pub subscribe-AllFit : (p : ProtocolState) → AllFit p → AllFit (subscribe p).1
unfolding subscribe
subscribe-AllFit p h = (record { room = ground arith }, h)

drop_subscriber-AllFit :
    (id : ℕ) (ss : List Subscriber) → All Fits ss → All Fits (drop_subscriber id ss)
unfolding drop_subscriber
drop_subscriber-AllFit id [] h = tt
drop_subscriber-AllFit id (s ∷ ss) h = elim (Bool-cases (nat_eq s.id id)) [
  | inl t ↦ rw t (drop_subscriber-AllFit id ss h.1)
  | inr f ↦ rw f (h.0, drop_subscriber-AllFit id ss h.1)
]

pub unsubscribe-AllFit : (id : ℕ) (p : ProtocolState) → AllFit p → AllFit (unsubscribe id p)
unfolding unsubscribe
unsubscribe-AllFit id p h = drop_subscriber-AllFit id p.subscribers h

shorter : (es : List Event) → length es ≤ stream_capacity → length (drop_first es) ≤ stream_capacity
shorter [] h = h
shorter (e ∷ es) h = ground arith

pub receive-AllFit : (id : ℕ) (p : ProtocolState) → AllFit p → AllFit (receive id p)
unfolding receive
receive-AllFit id p h =
    All-map Fits _
      (λ s fits. elim (Bool-cases (nat_eq s.id id)) [
        | inl t ↦ rw t (record { room = shorter s.buffer fits.room })
        | inr f ↦ rw f fits
      ])
      p.subscribers h
