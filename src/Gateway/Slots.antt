-- ===== src/Gateway/Slots.antt =====
-- The field `sequences` of apps/control-plane/internal/httpapi/protocol.go, a map of maps from a partition and a number to an
-- event: one association list, whose entries with a partition are the inner map.
use epistemic_engine.Prelude.{
  String, Bool, true, false, Option, none, some, List, [], ◌∷◌, ◌≡◌, refl, arith, ◌&&◌, ◌==◌,
  eq_iff, ◌↔◌, inl, inr, Bool-cases, sym, ◌∙◌, nat_eq, if◌then◌else◌,
}
use epistemic_engine.Go.Numbers.{ℤ, pos, negsuc}

abbrev pub int_eq : ℤ → ℤ → Bool
int_eq (pos m) (pos n) = nat_eq m n
int_eq (negsuc m) (negsuc n) = nat_eq m n
int_eq _ _ = false

pub record Slot : Type 0 where
  pub partition : String
  pub number : ℤ

abbrev pub slot_eq : Slot → Slot → Bool
slot_eq s t = s.partition == t.partition && int_eq s.number t.number

abbrev pub Slots : Type 0
Slots = List (Slot × String)

unfoldable pub lookup_slot : Slot → Slots → Option String
lookup_slot s [] = none
lookup_slot s ((t, id) ∷ slots) = if slot_eq t s then some id else lookup_slot s slots

unfoldable pub insert_slot : Slot → String → Slots → Slots
insert_slot s id [] = (s, id) ∷ []
insert_slot s id ((t, old) ∷ slots) =
    if slot_eq t s then (t, id) ∷ slots else (t, old) ∷ insert_slot s id slots

-- `delete(h.protocol.sequences[partition], number)`
unfoldable pub delete_slot : Slot → Slots → Slots
delete_slot s [] = []
delete_slot s ((t, id) ∷ slots) =
    let rest = delete_slot s slots in if slot_eq t s then rest else (t, id) ∷ rest

pub int_eq-eq : (m n : ℤ) → int_eq m n ≡ true → m ≡ n
int_eq-eq (pos m) (pos n) h = ground arith
int_eq-eq (negsuc m) (negsuc n) h = ground arith
int_eq-eq (pos m) (negsuc n) h = cc
int_eq-eq (negsuc m) (pos n) h = cc

pub slot_eq-eq : (s t : Slot) → slot_eq s t ≡ true → s ≡ t
slot_eq-eq s t h = ground (arith, eq_iff s.partition t.partition, int_eq-eq s.number t.number)

pub int_eq_self : (m : ℤ) → int_eq m m ≡ true
int_eq_self (pos m) = ground arith
int_eq_self (negsuc m) = ground arith

pub slot_eq_self : (s : Slot) → slot_eq s s ≡ true
slot_eq_self s = ground (arith, eq_iff s.partition s.partition, int_eq_self s.number)

slot_eq_iff : (s t : Slot) → (slot_eq s t ≡ true) ↔ (s ≡ t)
slot_eq_iff s t = (slot_eq-eq s t, λ e. rw e (slot_eq_self t))

unlike : (r s t : Slot) → slot_eq r s ≡ false → slot_eq r t ≡ true → slot_eq s t ≡ true → ⊥
unlike r s t other here both =
    let same : slot_eq r s ≡ true =
      (slot_eq_iff r s).1 (slot_eq-eq r t here ∙ sym (slot_eq-eq s t both)) in
    cc

pub lookup-insert_slot :
    (s t : Slot) (id : String) (slots : Slots)
    → lookup_slot t (insert_slot s id slots)
      ≡ (if slot_eq s t then some id else lookup_slot t slots)
unfolding lookup_slot insert_slot
lookup-insert_slot s t id [] = refl
lookup-insert_slot s t id ((r, old) ∷ slots) = elim (Bool-cases (slot_eq r s)) [
  | inl same ↦ rw same (rw (slot_eq-eq r s same) (ground arith))
  | inr other ↦ rw other (elim (Bool-cases (slot_eq r t)) [
    | inl here ↦ rw here (elim (Bool-cases (slot_eq s t)) [
      | inl both ↦ absurd (unlike r s t other here both)
      | inr off ↦ rw off refl
    ])
    | inr off ↦ rw off (lookup-insert_slot s t id slots)
  ])
]

pub lookup-delete_slot :
    (s t : Slot) (slots : Slots)
    → lookup_slot t (delete_slot s slots) ≡ (if slot_eq s t then none else lookup_slot t slots)
unfolding lookup_slot delete_slot
lookup-delete_slot s t [] = ground arith
lookup-delete_slot s t ((r, old) ∷ slots) = elim (Bool-cases (slot_eq r s)) [
  | inl same ↦ rw same (rw (slot_eq-eq r s same) (ground (arith, lookup-delete_slot s t slots)))
  | inr other ↦ rw other (elim (Bool-cases (slot_eq r t)) [
    | inl here ↦ rw here (elim (Bool-cases (slot_eq s t)) [
      | inl both ↦ absurd (unlike r s t other here both)
      | inr off ↦ rw off refl
    ])
    | inr off ↦ rw off (lookup-delete_slot s t slots)
  ])
]
