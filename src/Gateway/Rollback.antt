-- ===== src/Gateway/Rollback.antt =====
-- Taking an event back (`acceptProtocolEvent` of apps/control-plane/internal/httpapi/protocol.go)
-- leaves every index as it was before the event was written.
use mathlib.Core.Path.{subst}
use epistemic_engine.Prelude.{
  String, true, false, none, some, List, [], ◌∷◌, ◌++◌, ◌≡◌, refl, sym, ◌∙◌, ap, arith, ◌==◌,
  eq_refl, Bool-cases, Option-cases, inl, inr,
}
use epistemic_engine.Go.Map.{
  Map, lookup, or_zero, has_key, lookup-insert, lookup-insert_self, lookup-delete,
}
use epistemic_engine.Protocol.Types.{Event}
use epistemic_engine.Gateway.Slots.{
  Slot, slot_eq, lookup_slot, slot_eq-eq, lookup-insert_slot, lookup-delete_slot,
}
use epistemic_engine.Gateway.State.{
  ProtocolState, key_of, is_ordered, slot_of, listed, add, undo, remove_first, list_event,
  unlist_event,
}
use epistemic_engine.Gateway.Consistency.{IsConsistent, IsNew, mentions, same_text}

-- Two states that answer every question about events alike.
pub record Agrees (p q : ProtocolState) : Type 0 where
  pub events : (id : String) → lookup id p.events ≡ lookup id q.events
  pub idempotency : (key : String) → lookup key p.idempotency ≡ lookup key q.idempotency
  pub sequences : (s : Slot) → lookup_slot s p.sequences ≡ lookup_slot s q.sequences
  pub lists : (decision_id : String) → listed decision_id p ≡ listed decision_id q

pub Agrees-refl : (p : ProtocolState) → Agrees p p
Agrees-refl p = record {
  events = λ id. refl;
  idempotency = λ key. refl;
  sequences = λ s. refl;
  lists = λ d. refl;
}

-- Agreement is all that consistency looks at.
pub Agrees-IsConsistent : (p q : ProtocolState) → Agrees p q → IsConsistent q → IsConsistent p
Agrees-IsConsistent p q a c = record {
  keyed = λ id e h. c.keyed id e (sym (a.events id) ∙ h);
  valid = λ id e h. c.valid id e (sym (a.events id) ∙ h);
  own_key = λ id e h. a.idempotency (key_of e) ∙ c.own_key id e (sym (a.events id) ∙ h);
  own_slot = λ id e h o. a.sequences (slot_of e) ∙ c.own_slot id e (sym (a.events id) ∙ h) o;
  used_key = λ key id h. rw (a.events id) (c.used_key key id (sym (a.idempotency key) ∙ h));
  used_slot = λ s id h. rw (a.events id) (c.used_slot s id (sym (a.sequences s) ∙ h));
  used_listed = λ d id h. rw (a.events id) (c.used_listed d id (rw (a.lists d) at h));
}

remove_first-append :
    (id : String) (ids : List String)
    → mentions id ids ≡ false
    → remove_first id (ids ++ id ∷ []) ≡ ids
unfolding remove_first
remove_first-append id [] h = rw eq_refl refl
remove_first-append id (x ∷ xs) h = ground (arith, remove_first-append id xs)

remove_first-absent :
    (id : String) (ids : List String) → mentions id ids ≡ false → remove_first id ids ≡ ids
unfolding remove_first
remove_first-absent id [] h = refl
remove_first-absent id (x ∷ xs) h = ground (arith, remove_first-absent id xs)

abbrev ids_of : String → Map (List String) → List String
ids_of decision_id lists = or_zero [] (lookup decision_id lists)

unlist-Same :
    (own id decision_id : String) (ids : List String) (lists : Map (List String))
    → lookup own lists ≡ some ids
    → mentions id ids ≡ false
    → ids_of decision_id (unlist_event own id lists) ≡ ids_of decision_id lists
unfolding unlist_event
unlist-Same own id decision_id ids lists there absent =
    rw (unlist_event, there, lookup-insert, remove_first-absent id ids absent)
      (elim (Bool-cases (own == decision_id)) [
        | inl same ↦
            rw same
              (subst (λ d. ids ≡ ids_of d lists) (same_text own decision_id same) (rw there refl))
        | inr other ↦ rw other refl
      ])

unlist-list :
    (own id decision_id : String) (lists : Map (List String))
    → mentions id (ids_of own lists) ≡ false
    → ids_of decision_id (unlist_event own id (list_event own id lists)) ≡ ids_of decision_id lists
unfolding unlist_event list_event
unlist-list own id decision_id lists absent = elim (Bool-cases (own == "")) [
  | inl anonymous ↦
      rw (list_event, anonymous)
        (elim (Option-cases (lookup own lists)) [
          | inl none_ ↦ rw (unlist_event, none_) refl
          | inr (ids, there) ↦ unlist-Same own id decision_id ids lists there (rw there at absent)
        ])
  | inr named ↦
      rw
        (
          list_event,
          named,
          unlist_event,
          lookup-insert_self,
          lookup-insert,
          remove_first-append id (ids_of own lists) absent,
        )
        (elim (Bool-cases (own == decision_id)) [
          | inl same ↦ rw same (ap (λ d. ids_of d lists) (same_text own decision_id same))
          | inr other ↦ rw (other, list_event, named, lookup-insert, other) refl
        ])
]

module _ (e : Event) (p : ProtocolState) (c : IsConsistent p) (new : IsNew e p) where
  events_back : (id : String) → lookup id (undo e (add e p)).events ≡ lookup id p.events
  unfolding undo add
  events_back id =
      rw (lookup-delete, lookup-insert)
        (elim (Bool-cases (e.id == id)) [
          | inl same ↦
              rw same
                (sym (subst (λ i. lookup i p.events ≡ none) (same_text e.id id same) new.id_new))
          | inr other ↦ rw other refl
        ])

  keys_back : (key : String) → lookup key (undo e (add e p)).idempotency ≡ lookup key p.idempotency
  unfolding undo add
  keys_back key =
      rw (lookup-delete, lookup-insert)
        (elim (Bool-cases (key_of e == key)) [
          | inl same ↦ rw same (
              sym (
                subst (λ k. lookup k p.idempotency ≡ none) (same_text (key_of e) key same)
                  new.key_new))
          | inr other ↦ rw other refl
        ])

  slots_back : (s : Slot) → lookup_slot s (undo e (add e p)).sequences ≡ lookup_slot s p.sequences
  unfolding undo add
  slots_back s = elim (Bool-cases (is_ordered e)) [
    | inr n ↦ rw n refl
    | inl o ↦
        rw (o, lookup-delete_slot, lookup-insert_slot)
          (elim (Bool-cases (slot_eq (slot_of e) s)) [
            | inl same ↦ rw same (
                sym (
                  subst (λ t. lookup_slot t p.sequences ≡ none) (slot_eq-eq (slot_of e) s same)
                    (new.slot_new o)))
            | inr other ↦ rw other refl
          ])
  ]

  not_listed : (decision_id : String) → mentions e.id (listed decision_id p) ≡ false
  not_listed decision_id = elim (Bool-cases (mentions e.id (listed decision_id p))) [
    | inr f ↦ f
    | inl t ↦
        let known : has_key e.id p.events ≡ true = c.used_listed decision_id e.id t in
        cc (rw new.id_new at known)
  ]

  lists_back : (decision_id : String) → listed decision_id (undo e (add e p)) ≡ listed decision_id p
  unfolding undo add
  lists_back decision_id =
      unlist-list e.context.decision_id e.id decision_id p.events_by_decision
        (not_listed e.context.decision_id)

  pub undo-Agrees : Agrees (undo e (add e p)) p
  undo-Agrees = record {
    events = events_back;
    idempotency = keys_back;
    sequences = slots_back;
    lists = lists_back;
  }
