-- ===== src/Gateway/Queries.antt =====
-- The handlers of apps/control-plane/internal/httpapi/protocol.go that only read: `protocolDecision`,
-- `protocolCertificate`, `protocolEvents` and `hasDecision`. `sort.SliceStable` is an insertion sort
-- that keeps the order of elements of which none is less.
use mathlib.Core.Path.{subst}
use mathlib.Core.List.{Perm}
use mathlib.Core.List.Perm
use epistemic_engine.Prelude.{
  ℕ, String, Bool, true, false, List, [], ◌∷◌, ◌≡◌, refl, arith, ltb, map, ◌≤◌, sym, Bool-cases,
  inl, inr, if◌then◌else◌, ◌*◌,
}
use epistemic_engine.Go.Map.{lookup, has_key, or_zero}
use epistemic_engine.Go.Numbers.{ℤ, pos, negsuc, int_is_zero}
use epistemic_engine.Protocol.Types.{protocol_version, Event, DecisionResult, Certificate}
use epistemic_engine.Protocol.Validation.{event_types}
use epistemic_engine.Gateway.Failures.{failure}
use epistemic_engine.Gateway.Requests.{max_batch}
use epistemic_engine.Gateway.Slots.{int_eq, int_eq-eq, int_eq_self}
use epistemic_engine.Gateway.State.{ProtocolState, listed}
use epistemic_engine.Gateway.Reply.{Step, need}
use epistemic_engine.Gateway.Evaluate.{zero_event}

-- `protocolDecision`
unfoldable pub decision : String → Step DecisionResult
decision id g = need (failure 404 "not_found") (lookup id g.protocol.results) g

-- `protocolCertificate`
unfoldable pub certificate : String → Step Certificate
certificate id g = need (failure 404 "not_found") (lookup id g.protocol.certificates) g

abbrev pub has_decision : String → ProtocolState → Bool
has_decision id p = has_key id p.results

abbrev pub int_lt : ℤ → ℤ → Bool
int_lt (pos m) (pos n) = ltb m n
int_lt (pos m) (negsuc n) = false
int_lt (negsuc m) (pos n) = true
int_lt (negsuc m) (negsuc n) = ltb n m

-- The answer of `protocolDiscovery`.
pub record Limits : Type 0 where
  pub max_event_bytes : ℕ
  pub max_batch_size : ℕ

pub record Capabilities : Type 0 where
  pub protocol_versions : List String
  pub transports : List String
  pub event_types : List String
  pub decision_statuses : List String
  pub features : List String
  pub limits : Limits

abbrev pub discovery : Capabilities
discovery = record {
  protocol_versions = protocol_version ∷ [];
  transports = "http-json" ∷ "sse" ∷ [];
  event_types = event_types;
  decision_statuses = "allow" ∷ "block" ∷ "indeterminate" ∷ "error" ∷ [];
  features =
      "single-event" ∷ "batch" ∷ "synchronous-evaluation" ∷ "decision-query" ∷ "event-history"
      ∷ "certificate" ∷ "stream" ∷ "idempotency" ∷ "ordering" ∷ "context-propagation" ∷ [];
  limits = record { max_event_bytes = 2 * 1048576; max_batch_size = max_batch };
}

-- The function given to `sort.SliceStable`.
unfoldable pub earlier : Event → Event → Bool
earlier e f =
    if int_eq e.ordering.sequence f.ordering.sequence
    then ltb e.time f.time
    else if int_is_zero e.ordering.sequence
    then false
    else if int_is_zero f.ordering.sequence
    then true
    else int_lt e.ordering.sequence f.ordering.sequence

unfoldable pub place : Event → List Event → List Event
unfolding earlier
place e [] = e ∷ []
place e (f ∷ fs) = let rest = place e fs in if earlier f e then f ∷ rest else e ∷ f ∷ fs

unfoldable pub in_sequence : List Event → List Event
unfolding place
in_sequence [] = []
in_sequence (e ∷ es) = place e (in_sequence es)

abbrev pub stored_events : String → ProtocolState → List Event
stored_events id p = map (λ i. or_zero zero_event (lookup i p.events)) (listed id p)

-- `protocolEvents`
unfoldable pub events : String → ProtocolState → List Event
unfolding in_sequence
events id p = in_sequence (stored_events id p)

-- `e` may stand directly before `f` in a history: an event without a sequence number, that is with
-- number zero, only before another one; a numbered event before one with a number as high or
-- higher; and of two events with the same number, not the later one before the earlier.
pub record Precedes (e f : Event) : Type 0 where
  pub unnumbered : int_is_zero e.ordering.sequence ≡ true → int_is_zero f.ordering.sequence ≡ true
  pub ascending :
      int_is_zero f.ordering.sequence ≡ false
      → int_lt f.ordering.sequence e.ordering.sequence ≡ false
  pub timed : e.ordering.sequence ≡ f.ordering.sequence → e.time ≤ f.time

-- The first of the events may stand behind this one.
unfoldable pub Follows : Event → List Event → Type 0
Follows e [] = Unit
Follows e (f ∷ fs) = Precedes e f

-- Every event may stand directly before the next.
unfoldable pub InOrder : List Event → Type 0
InOrder [] = Unit
InOrder (e ∷ es) = Follows e es × InOrder es

int_eq_sym : (m n : ℤ) → int_eq m n ≡ int_eq n m
int_eq_sym (pos m) (pos n) = ground arith
int_eq_sym (pos m) (negsuc n) = refl
int_eq_sym (negsuc m) (pos n) = refl
int_eq_sym (negsuc m) (negsuc n) = ground arith

int_lt_asymmetric : (m n : ℤ) → int_lt m n ≡ true → int_lt n m ≡ false
int_lt_asymmetric (pos m) (pos n) h = ground arith
int_lt_asymmetric (pos m) (negsuc n) h = cc
int_lt_asymmetric (negsuc m) (pos n) h = refl
int_lt_asymmetric (negsuc m) (negsuc n) h = ground arith

time_asymmetric : (m n : ℕ) → ltb m n ≡ true → ltb n m ≡ false
time_asymmetric m n h = ground arith

earlier_asymmetric : (e f : Event) → earlier e f ≡ true → earlier f e ≡ false
unfolding earlier
earlier_asymmetric e f h = ground (
  arith,
  int_eq_sym e.ordering.sequence f.ordering.sequence,
  int_lt_asymmetric e.ordering.sequence f.ordering.sequence,
  time_asymmetric e.time f.time,
)

int_lt_irreflexive : (m : ℤ) → int_lt m m ≡ false
int_lt_irreflexive (pos m) = ground arith
int_lt_irreflexive (negsuc m) = ground arith

-- The comparison of the code does not put `f` before `e`.
earlier-Precedes : (e f : Event) → earlier f e ≡ false → Precedes e f
unfolding earlier
earlier-Precedes e f late =
    let m = e.ordering.sequence in
    let n = f.ordering.sequence in
    record {
      unnumbered = λ z. elim (Bool-cases (int_eq n m)) [
        | inl t ↦ subst (λ k. int_is_zero k ≡ true) (sym (int_eq-eq n m t)) z
        | inr d ↦ ground arith
      ];
      ascending = λ z. elim (Bool-cases (int_eq n m)) [
        | inl t ↦ subst (λ k. int_lt n k ≡ false) (int_eq-eq n m t) (int_lt_irreflexive n)
        | inr d ↦ elim (Bool-cases (int_is_zero m)) [
          | inl zero_ ↦ cc (rw (earlier, d, z, zero_) at late)
          | inr nonzero ↦ ground arith
        ]
      ];
      timed = λ same.
          let equal : int_eq n m ≡ true =
            subst (λ k. int_eq n k ≡ true) (sym same) (int_eq_self n) in
          let later : ltb f.time e.time ≡ false = rw (earlier, equal) at late in
          ground (arith, later);
    }

place-Perm : (e : Event) (es : List Event) → Perm (place e es) (e ∷ es)
unfolding place
place-Perm e [] = Perm.refl (e ∷ [])
place-Perm e (f ∷ fs) = elim (Bool-cases (earlier f e)) [
  | inl t ↦ rw t (Perm.trans (Perm.cons f (place-Perm e fs)) (Perm.swap e f fs))
  | inr n ↦ rw n (Perm.refl (e ∷ f ∷ fs))
]

in_sequence-Perm : (es : List Event) → Perm (in_sequence es) es
unfolding in_sequence
in_sequence-Perm [] = Perm.refl []
in_sequence-Perm (e ∷ es) =
    Perm.trans (place-Perm e (in_sequence es)) (Perm.cons e (in_sequence-Perm es))

place-Follows :
    (f e : Event) (es : List Event) → Precedes f e → Follows f es → Follows f (place e es)
unfolding place Follows
place-Follows f e [] late h = late
place-Follows f e (g ∷ gs) late h = elim (Bool-cases (earlier g e)) [
  | inl t ↦ rw t h
  | inr n ↦ rw n late
]

place-InOrder : (e : Event) (es : List Event) → InOrder es → InOrder (place e es)
unfolding place InOrder Follows
place-InOrder e [] h = (tt, tt)
place-InOrder e (f ∷ fs) h = elim (Bool-cases (earlier f e)) [
  | inl t ↦ rw t (
    place-Follows f e fs (earlier-Precedes f e (earlier_asymmetric f e t)) h.0,
    place-InOrder e fs h.1,
  )
  | inr n ↦ rw n (earlier-Precedes e f n, h)
]

in_sequence-InOrder : (es : List Event) → InOrder (in_sequence es)
unfolding in_sequence InOrder
in_sequence-InOrder [] = tt
in_sequence-InOrder (e ∷ es) = place-InOrder e (in_sequence es) (in_sequence-InOrder es)

-- The history of a decision is in order, whatever sequence numbers and times its events have: the
-- events with a sequence number come first, in ascending order of it, then those without; and of
-- two neighbours with the same number, or both without, the later one does not come first. It
-- consists of exactly the events that the decision's list names, each as often as the list names it.
pub events_sorted :
    (id : String) (p : ProtocolState)
    → InOrder (events id p) × Perm (events id p) (stored_events id p)
unfolding events
events_sorted id p =
    (in_sequence-InOrder (stored_events id p), in_sequence-Perm (stored_events id p))
