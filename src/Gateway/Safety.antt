-- ===== src/Gateway/Safety.antt =====
-- What `acceptProtocolEvent` of apps/control-plane/internal/httpapi/protocol.go does to the indices.
use mathlib.Core.Path.{subst}
use epistemic_engine.Prelude.{
  String, Bool, true, false, none, some, ◌≡◌, ◌≢◌, refl, sym, arith, ◌==◌, eq_refl, Bool-cases,
  Option-cases, inl, inr, if◌then◌else◌,
}
use epistemic_engine.Go.Effect.{Result, ok, err}
use epistemic_engine.Go.Map.{lookup, has_key, or_zero, lookup-insert_self}
use epistemic_engine.Go.Text.{is_blank}
use epistemic_engine.Domain.Run as Run
use epistemic_engine.Protocol.Types.{Event}
use epistemic_engine.Protocol.Validation.{validate_event}
use epistemic_engine.Service.System.{System}
use epistemic_engine.Gateway.Failures.{Refusal}
use epistemic_engine.Gateway.Slots.{lookup_slot}
use epistemic_engine.Gateway.State.{
  ProtocolState, Gateway, GatewayEnv, key_of, is_ordered, slot_of, add, undo, broadcast,
}
use epistemic_engine.Gateway.Accept.{
  Acceptance, created, duplicate, refused, parent_error, sequence_error, order_error, settle, store,
  accept_new, accept_valid, accept,
}
use epistemic_engine.Gateway.Consistency.{IsConsistent, IsNew, same_text, add-IsConsistent}
use epistemic_engine.Gateway.Rollback.{Agrees, Agrees-refl, Agrees-IsConsistent, undo-Agrees}

blank_empty : is_blank "" ≡ true
unfolding is_blank
blank_empty = refl

valid-named : (e : Event) → validate_event e ≡ none → (e.id == "") ≡ false
unfolding validate_event
valid-named e h = elim (Bool-cases (e.id == "")) [
  | inr f ↦ f
  | inl t ↦
      let blank : is_blank e.id ≡ true =
        subst (λ s. is_blank s ≡ true) (sym (same_text e.id "" t)) blank_empty in
      ground arith
]

module _ (e : Event) (p : ProtocolState) (c : IsConsistent p) where
  stored_named : (id : String) → has_key id p.events ≡ true → (id == "") ≡ false
  stored_named id h = elim (Option-cases (lookup id p.events)) [
    | inl missing ↦ cc (rw missing at h)
    | inr (x, there) ↦
        subst (λ i. (i == "") ≡ false) (c.keyed id x there) (valid-named x (c.valid id x there))
  ]

  free_slot :
      lookup e.id p.events ≡ none
      → sequence_error e p ≡ none
      → is_ordered e ≡ true
      → lookup_slot (slot_of e) p.sequences ≡ none
  unfolding sequence_error
  free_slot fresh free ordered = elim (Option-cases (lookup_slot (slot_of e) p.sequences)) [
    | inl none_ ↦ none_
    | inr (id, there) ↦
        let used = c.used_slot (slot_of e) id there in
        let named = stored_named id used in
        let other : (id == e.id) ≡ false = elim (Bool-cases (id == e.id)) [
          | inr f ↦ f
          | inl t ↦ cc (rw (same_text id e.id t, fresh) at used)
        ] in
        cc (rw (sequence_error, ordered, there, named, other) at free)
  ]

order_error-none :
    (e : Event) (p : ProtocolState) → order_error e p ≡ none → sequence_error e p ≡ none
unfolding order_error
order_error-none e p h = elim (Option-cases (parent_error e p)) [
  | inl fine ↦ rw (order_error, fine) at h
  | inr (x, bad) ↦ cc (rw (order_error, bad) at h)
]

broadcast-Agrees : (e : Event) (p : ProtocolState) → Agrees (broadcast e p) p
unfolding broadcast
broadcast-Agrees e p = record {
  events = λ id. refl;
  idempotency = λ key. refl;
  sequences = λ s. refl;
  lists = λ d. refl;
}

-- An acceptance leaves consistent indices; the event is there where it is `created`, and the indices
-- are the ones of before where it is not.
pub record Kept (e : Event) (p : ProtocolState) (answer : Acceptance) (q : ProtocolState)
    : Type 0 where
  pub consistent : IsConsistent q
  pub unchanged : answer ≢ created → Agrees q p
  pub present : answer ≡ created → lookup e.id q.events ≡ some e

duplicate_or : (b : Bool) (x : Refusal) → (if b then duplicate else refused x) ≢ created
duplicate_or true x = λ h. cc
duplicate_or false x = λ h. cc

module _ (env : GatewayEnv) (e : Event) (g : Gateway) (c : IsConsistent g.protocol) where
  Kept-same : (answer : Acceptance) → answer ≢ created → Kept e g.protocol answer g.protocol
  Kept-same answer other = record {
    consistent = c;
    unchanged = λ n. Agrees-refl g.protocol;
    present = λ h. absurd (other h);
  }

  module _ (new : IsNew e g.protocol) where
    stored : lookup e.id (broadcast e (add e g.protocol)).events ≡ some e
    unfolding broadcast add
    stored = lookup-insert_self e.id e g.protocol.events

    Kept-created : Kept e g.protocol created (broadcast e (add e g.protocol))
    Kept-created = record {
      consistent =
          Agrees-IsConsistent (broadcast e (add e g.protocol)) (add e g.protocol)
            (broadcast-Agrees e (add e g.protocol)) (add-IsConsistent e g.protocol c new);
      unchanged = λ n. absurd (n refl);
      present = λ h. stored;
    }

    settle-Kept :
        (r : Result Run.Event) (s : System)
        → let (answer, g') = settle env e r s (record g { protocol = add e g.protocol }) in
          Kept e g.protocol answer g'.protocol
    unfolding settle
    settle-Kept (ok stored) s = Kept-created
    settle-Kept (err x) s = record {
      consistent =
          Agrees-IsConsistent (undo e (add e g.protocol)) g.protocol
            (undo-Agrees e g.protocol c new) c;
      unchanged = λ n. undo-Agrees e g.protocol c new;
      present = λ h. cc;
    }

    store-Kept : let (answer, g') = store env e g in Kept e g.protocol answer g'.protocol
    unfolding store
    store-Kept =
        let run_id = or_zero "" (lookup e.context.decision_id g.protocol.runs) in
        elim (Bool-cases (run_id == "")) [
          | inl t ↦ rw (store, t) Kept-created
          | inr f ↦ rw (store, f) (settle-Kept _ _)
        ]

  accept_new-Kept :
      validate_event e ≡ none
      → lookup e.id g.protocol.events ≡ none
      → lookup (key_of e) g.protocol.idempotency ≡ none
      → let (answer, g') = accept_new env e g in Kept e g.protocol answer g'.protocol
  unfolding accept_new order_error
  accept_new-Kept valid fresh unused = elim (Option-cases (order_error e g.protocol)) [
    | inr (x, bad) ↦ rw (accept_new, bad) (Kept-same (refused x) (λ h. cc))
    | inl good ↦
        rw (accept_new, good)
          (store-Kept (record {
            id_new = fresh;
            key_new = unused;
            slot_new = free_slot e g.protocol c fresh (order_error-none e g.protocol good);
            accepted = valid;
          }))
  ]

  pub accept-Kept : let (answer, g') = accept env e g in Kept e g.protocol answer g'.protocol
  unfolding accept accept_valid
  accept-Kept = elim (Option-cases (validate_event e)) [
    | inr (x, bad) ↦ rw (accept, bad) (Kept-same _ (λ h. cc))
    | inl valid ↦
        rw (accept, valid)
          (elim (Option-cases (lookup e.id g.protocol.events)) [
            | inr (x, known) ↦ rw (accept_valid, known) (Kept-same _ (duplicate_or _ _))
            | inl fresh ↦
                rw (accept_valid, fresh)
                  (elim (Option-cases (lookup (key_of e) g.protocol.idempotency)) [
                    | inr (id, used) ↦ rw (accept_valid, used) (Kept-same _ (duplicate_or _ _))
                    | inl unused ↦ rw (accept_valid, unused) (accept_new-Kept valid fresh unused)
                  ])
          ])
  ]

-- Where the gateway does not take an event as new, be it refused by a check or by the service behind
-- it, every lookup of events, keys, places and histories answers as before, in any consistent state.
pub accept-unchanged :
    (env : GatewayEnv) (e : Event) (g : Gateway)
    → IsConsistent g.protocol
    → (accept env e g).0 ≢ created
    → Agrees (accept env e g).1.protocol g.protocol
accept-unchanged env e g c = (accept-Kept env e g c).unchanged

accept_stored :
    (env : GatewayEnv) (e : Event) (g : Gateway)
    → validate_event e ≡ none
    → lookup e.id g.protocol.events ≡ some e
    → accept env e g ≡ (duplicate, g)
unfolding accept accept_valid
accept_stored env e g valid there = rw (accept, valid, accept_valid, there, eq_refl) refl

-- An event that a consistent gateway took as new is a duplicate when it is sent again at once, and
-- sending it again changes nothing.
pub accept-accept :
    (env : GatewayEnv) (e : Event) (g : Gateway)
    → IsConsistent g.protocol
    → (accept env e g).0 ≡ created
    → accept env e (accept env e g).1 ≡ (duplicate, (accept env e g).1)
accept-accept env e g c h =
    let after = accept-Kept env e g c in
    let there = after.present h in
    accept_stored env e (accept env e g).1 (after.consistent.valid e.id e there) there
