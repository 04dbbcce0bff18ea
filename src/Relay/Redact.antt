-- ===== src/Relay/Redact.antt =====
-- `redactValue` of cmd/epistemic-relay/main.go. A value that `encoding/json` decodes into `any` is a
-- tree here; the members of an object are a list. `keys` is the map `redact`, and `lower` is
-- `strings.ToLower`.
use epistemic_engine.Prelude.{
  String, Bool, true, List, ◌≡◌, refl, ap, any_of, Bool-cases, inl, inr, ◌==◌, if◌then◌else◌,
}

mutual
  pub data Json : Type 0 where
    null : Json
    bool : Bool → Json
    number : String → Json
    text : String → Json
    array : Items → Json
    object : Members → Json

  pub data Items : Type 0 where
    no_items : Items
    item : Json → Items → Items

  pub data Members : Type 0 where
    no_members : Members
    member : String → Json → Members → Members

abbrev pub redacted : Json
redacted = text "[REDACTED]"

module _ (lower : String → String) (keys : List String) where
  -- `r.redact[strings.ToLower(key)]`
  abbrev pub is_secret : String → Bool
  is_secret key = any_of (λ k. k == lower key) keys

  unfoldable mutual
    pub redact : Json → Json
    redact null = null
    redact (bool b) = bool b
    redact (number n) = number n
    redact (text t) = text t
    redact (array items) = array (redact_items items)
    redact (object members) = object (redact_members members)

    pub redact_items : Items → Items
    redact_items no_items = no_items
    redact_items (item v items) = item (redact v) (redact_items items)

    pub redact_members : Members → Members
    redact_members no_members = no_members
    redact_members (member key v members) =
        member key (if is_secret key then redacted else redact v) (redact_members members)

  -- At any depth, a member with a secret key holds the mark and nothing else.
  unfoldable mutual
    pub Hidden : Json → Type 0
    Hidden null = Unit
    Hidden (bool b) = Unit
    Hidden (number n) = Unit
    Hidden (text t) = Unit
    Hidden (array items) = HiddenItems items
    Hidden (object members) = HiddenMembers members

    pub HiddenItems : Items → Type 0
    HiddenItems no_items = Unit
    HiddenItems (item v items) = Hidden v × HiddenItems items

    pub HiddenMembers : Members → Type 0
    HiddenMembers no_members = Unit
    HiddenMembers (member key v members) =
        (is_secret key ≡ true → v ≡ redacted) × Hidden v × HiddenMembers members

  mutual
    unfolding redact Hidden

    redact-Hidden : (v : Json) → Hidden (redact v)
    redact-Hidden null = tt
    redact-Hidden (bool b) = tt
    redact-Hidden (number n) = tt
    redact-Hidden (text t) = tt
    redact-Hidden (array items) = redact_items-Hidden items
    redact-Hidden (object members) = redact_members-Hidden members

    redact_items-Hidden : (items : Items) → HiddenItems (redact_items items)
    redact_items-Hidden no_items = tt
    redact_items-Hidden (item v items) = (redact-Hidden v, redact_items-Hidden items)

    redact_members-Hidden : (members : Members) → HiddenMembers (redact_members members)
    redact_members-Hidden no_members = tt
    redact_members-Hidden (member key v members) = elim (Bool-cases (is_secret key)) [
      | inl t ↦ rw t (λ h. refl, tt, redact_members-Hidden members)
      | inr f ↦ rw f (λ h. cc, redact-Hidden v, redact_members-Hidden members)
    ]

  mutual
    unfolding redact Hidden

    redact-same : (v : Json) → Hidden v → redact v ≡ v
    redact-same null h = refl
    redact-same (bool b) h = refl
    redact-same (number n) h = refl
    redact-same (text t) h = refl
    redact-same (array items) h = ap array (redact_items-same items h)
    redact-same (object members) h = ap object (redact_members-same members h)

    redact_items-same : (items : Items) → HiddenItems items → redact_items items ≡ items
    redact_items-same no_items h = refl
    redact_items-same (item v items) h = cc (redact-same v h.0, redact_items-same items h.1)

    redact_members-same :
        (members : Members) → HiddenMembers members → redact_members members ≡ members
    redact_members-same no_members h = refl
    redact_members-same (member key v members) h = elim (Bool-cases (is_secret key)) [
      | inl t ↦ rw t (cc (h.0 t, redact_members-same members h.2))
      | inr f ↦ rw f (cc (redact-same v h.1, redact_members-same members h.2))
    ]

  -- What the relay makes of a value has no member, at any depth, with a secret key and another value
  -- than the mark, and a value that has none stays as it is: redacting twice is redacting once.
  pub redact-Hidden_and_same :
      (v : Json) → Hidden (redact v) × (Hidden v → redact v ≡ v) × (redact (redact v) ≡ redact v)
  redact-Hidden_and_same v =
      (redact-Hidden v, redact-same v, redact-same (redact v) (redact-Hidden v))
