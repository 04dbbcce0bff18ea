-- ===== src/Gateway/Consistency.antt =====
-- The indices of `protocolState` (apps/control-plane/internal/httpapi/protocol.go) agree with its
-- events, and the writes of an event keep them so.
use mathlib.Core.Path.{subst}
use epistemic_engine.Prelude.{
  String, Bool, true, not, none, some, List, [], ◌∷◌, ◌++◌, ◌&&◌, ◌≡◌, refl, sym, ap, arith, ◌==◌,
  eq_iff, eq_refl, any_of, ◌⊎◌, Bool-cases, inl, inr, if◌then◌else◌,
}
use epistemic_engine.Go.Map.{lookup, has_key, lookup-insert}
use epistemic_engine.Protocol.Types.{Event}
use epistemic_engine.Protocol.Validation.{validate_event}
use epistemic_engine.Gateway.Slots.{
  Slot, slot_eq, lookup_slot, slot_eq-eq, slot_eq_self, lookup-insert_slot,
}
use epistemic_engine.Gateway.State.{
  ProtocolState, new_protocol_state, key_of, is_ordered, slot_of, listed, add, list_event,
}

abbrev pub mentions : String → List String → Bool
mentions id ids = any_of (λ i. i == id) ids

pub record IsConsistent (p : ProtocolState) : Type 0 where
  pub keyed : (id : String) (e : Event) → lookup id p.events ≡ some e → e.id ≡ id
  pub valid : (id : String) (e : Event) → lookup id p.events ≡ some e → validate_event e ≡ none
  pub own_key :
      (id : String) (e : Event)
      → lookup id p.events ≡ some e
      → lookup (key_of e) p.idempotency ≡ some id
  pub own_slot :
      (id : String) (e : Event)
      → lookup id p.events ≡ some e
      → is_ordered e ≡ true
      → lookup_slot (slot_of e) p.sequences ≡ some id
  pub used_key : (key id : String) → lookup key p.idempotency ≡ some id → has_key id p.events ≡ true
  pub used_slot :
      (s : Slot) (id : String) → lookup_slot s p.sequences ≡ some id → has_key id p.events ≡ true
  pub used_listed :
      (decision_id id : String)
      → mentions id (listed decision_id p) ≡ true
      → has_key id p.events ≡ true

pub new_protocol_state-IsConsistent : IsConsistent new_protocol_state
unfolding lookup lookup_slot
new_protocol_state-IsConsistent = record {
  keyed = λ id e h. cc;
  valid = λ id e h. cc;
  own_key = λ id e h. cc;
  own_slot = λ id e h o. cc;
  used_key = λ key id h. cc;
  used_slot = λ s id h. cc;
  used_listed = λ d id h. cc;
}

-- An event that none of the indices knows.
pub record IsNew (e : Event) (p : ProtocolState) : Type 0 where
  pub id_new : lookup e.id p.events ≡ none
  pub key_new : lookup (key_of e) p.idempotency ≡ none
  pub slot_new : is_ordered e ≡ true → lookup_slot (slot_of e) p.sequences ≡ none
  pub accepted : validate_event e ≡ none

pub same_text : (a b : String) → (a == b) ≡ true → a ≡ b
same_text a b h = ground (arith, eq_iff a b)

mentions-append :
    (id : String) (ids : List String) (last : String)
    → mentions id (ids ++ last ∷ []) ≡ (if mentions id ids then true else last == id)
mentions-append id [] last = ground arith
mentions-append id (x ∷ xs) last = ground (arith, mentions-append id xs last)

module _ (e : Event) (p : ProtocolState) where
  lookup-events :
      (id : String)
      → lookup id (add e p).events ≡ (if e.id == id then some e else lookup id p.events)
  unfolding add
  lookup-events id = lookup-insert e.id id e p.events

  lookup-idempotency :
      (key : String)
      → lookup key (add e p).idempotency
        ≡ (if key_of e == key then some e.id else lookup key p.idempotency)
  unfolding add
  lookup-idempotency key = lookup-insert (key_of e) key e.id p.idempotency

  lookup-sequences :
      (s : Slot)
      → lookup_slot s (add e p).sequences
        ≡ (if is_ordered e && slot_eq (slot_of e) s then some e.id else lookup_slot s p.sequences)
  unfolding add
  lookup-sequences s = elim (Bool-cases (is_ordered e)) [
    | inl o ↦ rw o (lookup-insert_slot (slot_of e) s e.id p.sequences)
    | inr n ↦ rw n refl
  ]

  listed-add :
      (decision_id : String)
      → listed decision_id (add e p) ≡ (
          if not (e.context.decision_id == "") && e.context.decision_id == decision_id
          then listed decision_id p ++ e.id ∷ []
          else listed decision_id p)
  unfolding add list_event
  listed-add decision_id = elim (Bool-cases (e.context.decision_id == "")) [
    | inl t ↦ rw (list_event, t) refl
    | inr f ↦
        rw (list_event, f)
          (rw lookup-insert (elim (Bool-cases (e.context.decision_id == decision_id)) [
            | inl same ↦ rw same (
                ap (λ d. listed d p ++ e.id ∷ [])
                  (same_text e.context.decision_id decision_id same))
            | inr other ↦ rw other refl
          ]))
  ]

module _ (e : Event) (p : ProtocolState) (c : IsConsistent p) (new : IsNew e p) where
  has_key-add : (id : String) → has_key id p.events ≡ true → has_key id (add e p).events ≡ true
  has_key-add id h =
      rw lookup-events
        (elim (Bool-cases (e.id == id)) [ inl same ↦ rw same refl | inr other ↦ rw other h ])

  has_key-own : has_key e.id (add e p).events ≡ true
  has_key-own = rw (lookup-events, eq_refl) refl

  -- What is stored afterwards is the event or was stored before.
  stored_cases :
      (id : String) (x : Event)
      → lookup id (add e p).events ≡ some x
      → ((e.id ≡ id) × (e ≡ x)) ⊎ (lookup id p.events ≡ some x)
  stored_cases id x h = elim (Bool-cases (e.id == id)) [
    | inl same ↦ inl (same_text e.id id same, cc (rw (lookup-events, same) at h))
    | inr other ↦ inr (rw (lookup-events, other) at h)
  ]

  add_keyed : (id : String) (x : Event) → lookup id (add e p).events ≡ some x → x.id ≡ id
  add_keyed id x h = elim (stored_cases id x h) [
    | inl (i, s) ↦ subst (λ (y : Event). y.id ≡ id) s i
    | inr old ↦ c.keyed id x old
  ]

  add_valid :
      (id : String) (x : Event) → lookup id (add e p).events ≡ some x → validate_event x ≡ none
  add_valid id x h = elim (stored_cases id x h) [
    | inl (i, s) ↦ subst (λ (y : Event). validate_event y ≡ none) s new.accepted
    | inr old ↦ c.valid id x old
  ]

  add_own_key :
      (id : String) (x : Event)
      → lookup id (add e p).events ≡ some x
      → lookup (key_of x) (add e p).idempotency ≡ some id
  add_own_key id x h = elim (stored_cases id x h) [
    | inl (i, s) ↦
        subst (λ (y : Event). lookup (key_of y) (add e p).idempotency ≡ some id) s
          (rw (lookup-idempotency, eq_refl) (ap some i))
    | inr old ↦ rw lookup-idempotency (elim (Bool-cases (key_of e == key_of x)) [
      | inl same ↦
          let taken : lookup (key_of e) p.idempotency ≡ some id =
            subst (λ k. lookup k p.idempotency ≡ some id)
              (sym (same_text (key_of e) (key_of x) same)) (c.own_key id x old) in
          cc (new.key_new)
      | inr other ↦ rw other (c.own_key id x old)
    ])
  ]

  add_own_slot :
      (id : String) (x : Event)
      → lookup id (add e p).events ≡ some x
      → is_ordered x ≡ true
      → lookup_slot (slot_of x) (add e p).sequences ≡ some id
  add_own_slot id x h ordered = elim (stored_cases id x h) [
    | inl (i, s) ↦
        let own : lookup_slot (slot_of e) (add e p).sequences ≡ some id =
          rw
            (
              lookup-sequences,
              slot_eq_self,
              subst (λ (y : Event). is_ordered y ≡ true) (sym s) ordered,
            )
            (ap some i) in
        subst (λ (y : Event). lookup_slot (slot_of y) (add e p).sequences ≡ some id) s own
    | inr old ↦ rw lookup-sequences (elim (Bool-cases (is_ordered e)) [
      | inr n ↦ rw n (c.own_slot id x old ordered)
      | inl o ↦ rw o (elim (Bool-cases (slot_eq (slot_of e) (slot_of x))) [
        | inl same ↦
            let taken : lookup_slot (slot_of e) p.sequences ≡ some id =
              subst (λ s. lookup_slot s p.sequences ≡ some id)
                (sym (slot_eq-eq (slot_of e) (slot_of x) same)) (c.own_slot id x old ordered) in
            cc (new.slot_new o)
        | inr other ↦ rw other (c.own_slot id x old ordered)
      ])
    ])
  ]

  add_used_key :
      (key id : String)
      → lookup key (add e p).idempotency ≡ some id
      → has_key id (add e p).events ≡ true
  add_used_key key id h = elim (Bool-cases (key_of e == key)) [
    | inl same ↦
        let own : e.id ≡ id = cc (rw (lookup-idempotency, same) at h) in
        subst (λ i. has_key i (add e p).events ≡ true) own has_key-own
    | inr other ↦ has_key-add id (c.used_key key id (rw (lookup-idempotency, other) at h))
  ]

  add_used_slot :
      (s : Slot) (id : String)
      → lookup_slot s (add e p).sequences ≡ some id
      → has_key id (add e p).events ≡ true
  add_used_slot s id h = elim (Bool-cases (is_ordered e && slot_eq (slot_of e) s)) [
    | inl same ↦
        let own : e.id ≡ id = cc (rw (lookup-sequences, same) at h) in
        subst (λ i. has_key i (add e p).events ≡ true) own has_key-own
    | inr other ↦ has_key-add id (c.used_slot s id (rw (lookup-sequences, other) at h))
  ]

  add_used_listed :
      (decision_id id : String)
      → mentions id (listed decision_id (add e p)) ≡ true
      → has_key id (add e p).events ≡ true
  add_used_listed decision_id id h =
      elim (Bool-cases
        (not (e.context.decision_id == "") && e.context.decision_id == decision_id)) [
          | inr other ↦ has_key-add id (c.used_listed decision_id id (rw (listed-add, other) at h))
          | inl same ↦ elim (Bool-cases (mentions id (listed decision_id p))) [
            | inl old ↦ has_key-add id (c.used_listed decision_id id old)
            | inr fresh ↦
                let own : (e.id == id) ≡ true =
                  rw (listed-add, same, mentions-append id (listed decision_id p) e.id, fresh) at
                    h in
                subst (λ i. has_key i (add e p).events ≡ true) (same_text e.id id own) has_key-own
          ]
        ]

  pub add-IsConsistent : IsConsistent (add e p)
  add-IsConsistent = record {
    keyed = add_keyed;
    valid = add_valid;
    own_key = add_own_key;
    own_slot = add_own_slot;
    used_key = add_used_key;
    used_slot = add_used_slot;
    used_listed = add_used_listed;
  }
