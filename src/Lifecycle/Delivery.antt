-- ===== src/Lifecycle/Delivery.antt =====
-- What the bus of bus.go keeps for its subscribers.
use native.Mathlib.Decide.{dec_lt}
use mathlib.Core.List.{append-nil, append_assoc}
use epistemic_engine.Prelude.{
  ℕ, ◌≤◌, ◌<◌, ap, sym, String, Bool, true, false, List, [], ◌∷◌, ◌++◌, ◌≡◌, ◌⊎◌, inl, inr, arith,
  map, eq_iff, length, length-append, take, take-le_length, take-append_full, select, ◌∙◌, All,
  All-append, Bool-cases, ◌==◌, ltb, ◌&&◌, nat_eq, tail,
}
use epistemic_engine.Domain.Run.{LifecycleEvent}
use epistemic_engine.Lifecycle.{
  Channel, Bus, capacity, new_bus, deliver, publish, subscribe, cancel, unsubscribe, drain, receive,
}

-- A channel holds at most its capacity, and only events of its own run.
pub record IsFit (c : Channel) : Type 0 where
  pub bounded : length c.buffer ≤ capacity
  pub own : All (λ (e : LifecycleEvent). e.run_id ≡ c.run_id) c.buffer

abbrev pub AllFit : Bus → Type 0
AllFit b = All IsFit b.channels

deliver-IsFit : (event : LifecycleEvent) (c : Channel) → IsFit c → IsFit (deliver event c)
unfolding deliver
deliver-IsFit event c h =
    elim (Bool-cases (c.subscribed && c.run_id == event.run_id && ltb (length c.buffer) capacity)) [
      | inl t ↦ rw t (record {
        bounded = ground (arith, length-append c.buffer (event ∷ []));
        own =
            All-append (λ (e : LifecycleEvent). e.run_id ≡ c.run_id) c.buffer (event ∷ []) h.own
              (ground (arith, eq_iff c.run_id event.run_id), tt);
      })
      | inr f ↦ rw f h
    ]

cancel-IsFit : (id : ℕ) (c : Channel) → IsFit c → IsFit (cancel id c)
unfolding cancel
cancel-IsFit id c h = elim (Bool-cases (nat_eq c.id id)) [
  | inl t ↦ rw t (record { bounded = h.bounded; own = h.own })
  | inr f ↦ rw f h
]

tail-bounded : (n : ℕ) (es : List LifecycleEvent) → length es ≤ n → length (tail es) ≤ n
tail-bounded n [] h = h
tail-bounded n (e ∷ es) h = omega arith

All-tail : (P : LifecycleEvent → Type 0) (es : List LifecycleEvent) → All P es → All P (tail es)
All-tail P [] h = h
All-tail P (e ∷ es) h = h.1

drain-IsFit : (id : ℕ) (c : Channel) → IsFit c → IsFit (drain id c)
unfolding drain
drain-IsFit id c h = elim (Bool-cases (nat_eq c.id id)) [
  | inl t ↦ rw t (record {
    bounded = tail-bounded capacity c.buffer h.bounded;
    own = All-tail (λ (e : LifecycleEvent). e.run_id ≡ c.run_id) c.buffer h.own;
  })
  | inr f ↦ rw f h
]

map-AllFit :
    (f : Channel → Channel)
    → ((c : Channel) → IsFit c → IsFit (f c))
    → (cs : List Channel) → All IsFit cs
    → All IsFit (map f cs)
map-AllFit f keep [] h = tt
map-AllFit f keep (c ∷ cs) h = (keep c h.0, map-AllFit f keep cs h.1)

-- What the program and its subscribers do with the bus.
pub data Use : Type 0 where
  published : LifecycleEvent → Use
  subscribed : String → Use
  cancelled : ℕ → Use
  received : ℕ → Use

unfoldable pub step : Use → Bus → Bus
step (published event) b = publish event b
step (subscribed run_id) b = (subscribe run_id b).1
step (cancelled id) b = unsubscribe id b
step (received id) b = receive id b

unfoldable pub run_uses : List Use → Bus → Bus
unfolding step
run_uses [] b = b
run_uses (u ∷ us) b = run_uses us (step u b)

step-AllFit : (u : Use) (b : Bus) → AllFit b → AllFit (step u b)
unfolding step publish subscribe unsubscribe receive
step-AllFit (published event) b h = map-AllFit (deliver event) (deliver-IsFit event) b.channels h
step-AllFit (subscribed run_id) b h = (record { bounded = omega arith; own = tt }, h)
step-AllFit (cancelled id) b h = map-AllFit (cancel id) (cancel-IsFit id) b.channels h
step-AllFit (received id) b h = map-AllFit (drain id) (drain-IsFit id) b.channels h

run_uses-keeps : (us : List Use) (b : Bus) → AllFit b → AllFit (run_uses us b)
unfolding run_uses
run_uses-keeps [] b h = h
run_uses-keeps (u ∷ us) b h = run_uses-keeps us (step u b) (step-AllFit u b h)

-- Whatever publishing, subscribing, cancelling and receiving happens on a new bus, in any order,
-- every channel holds at most 16 events, all of the run that it was subscribed to.
pub run_uses-AllFit : (us : List Use) → AllFit (run_uses us new_bus)
run_uses-AllFit us = run_uses-keeps us new_bus tt

-- A burst of events that the subscriber does not read in between.
unfoldable pub deliver_all : List LifecycleEvent → Channel → Channel
deliver_all [] c = c
deliver_all (e ∷ es) c = deliver_all es (deliver e c)

abbrev pub of_run : String → LifecycleEvent → Bool
of_run run_id e = run_id == e.run_id

abbrev pub with_buffer : Channel → List LifecycleEvent → Channel
with_buffer c es = record c { buffer = es }

module _ (e : LifecycleEvent) (c : Channel) where
  deliver_room :
      c.subscribed ≡ true
      → of_run c.run_id e ≡ true
      → length c.buffer < capacity
      → deliver e c ≡ with_buffer c (c.buffer ++ e ∷ [])
  unfolding deliver
  deliver_room s own room = ground arith

  deliver_full : length c.buffer ≡ capacity → deliver e c ≡ c
  unfolding deliver
  deliver_full full = ground arith

  deliver_other : of_run c.run_id e ≡ false → deliver e c ≡ c
  unfolding deliver
  deliver_other other = ground arith

room_or_full : (n : ℕ) → n ≤ capacity → (n < capacity) ⊎ (n ≡ capacity)
room_or_full n h = elim (dec_lt n capacity) [ yes p ↦ inl p | no p ↦ inr (omega arith) ]

-- After a burst that nobody reads, a subscribed channel within its capacity holds what it held and
-- behind it the events of its run in their order, as many as fit: the first 16 of all these. The
-- later ones are dropped, and nothing else of the channel changes.
pub deliver_all-eq-take :
    (es : List LifecycleEvent) (c : Channel)
    → c.subscribed ≡ true
    → length c.buffer ≤ capacity
    → deliver_all es c
      ≡ record c { buffer = take capacity (c.buffer ++ select (of_run c.run_id) es) }
unfolding deliver_all
deliver_all-eq-take [] c s h = rw (append-nil, take-le_length capacity c.buffer h)
deliver_all-eq-take (e ∷ es) c s h = elim (Bool-cases (of_run c.run_id e)) [
  | inl own ↦ rw own (elim (room_or_full (length c.buffer) h) [
    | inl room ↦
        let longer = c.buffer ++ e ∷ [] in
        ap (deliver_all es) (deliver_room e c s own room)
        ∙ deliver_all-eq-take es (with_buffer c longer) s
            (omega (arith, length-append c.buffer (e ∷ [])))
        ∙ ap (λ b. with_buffer c (take capacity b))
            (append_assoc c.buffer (e ∷ []) (select (of_run c.run_id) es))
    | inr full ↦
        ap (deliver_all es) (deliver_full e c full)
        ∙ deliver_all-eq-take es c s h
        ∙ ap (with_buffer c) (
            take-append_full capacity c.buffer (select (of_run c.run_id) es) full
            ∙ sym (take-append_full capacity c.buffer (e ∷ select (of_run c.run_id) es) full))
  ])
  | inr other ↦
      rw other (ap (deliver_all es) (deliver_other e c other) ∙ deliver_all-eq-take es c s h)
]
