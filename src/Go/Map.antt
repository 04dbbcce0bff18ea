-- ===== src/Go/Map.antt =====
-- `map[string]V` as an association list with one entry for each key. A `range` loop visits the
-- entries in the order of the list; Go leaves that order open, and the list may have any.
use mathlib.Core.Path.{subst}
use epistemic_engine.Prelude.{
  String, ◌≡◌, refl, Option, none, some, Bool, true, false, List, [], ◌∷◌, arith, ◌==◌, eq_iff, All,
  eq_refl, if◌then◌else◌, inl, inr, Bool-cases,
}

abbrev pub Map {ℓ} : Type ℓ → Type ℓ
Map V = List (String × V)

module _ {ℓ} {V : Type ℓ} where
  -- `v, ok := m[k]`
  unfoldable pub lookup : String → Map V → Option V
  lookup key [] = none
  lookup key ((other, value) ∷ entries) = if other == key then some value else lookup key entries

  -- `m[k] = v`
  unfoldable pub insert : String → V → Map V → Map V
  insert key value [] = (key, value) ∷ []
  insert key value ((other, old) ∷ entries) =
      if other == key then (other, value) ∷ entries else (other, old) ∷ insert key value entries

  -- `_, ok := m[k]`
  abbrev pub is_some : Option V → Bool
  is_some none = false
  is_some (some v) = true

  abbrev pub has_key : String → Map V → Bool
  has_key k m = is_some (lookup k m)

  -- `m[k]`, with the zero value of `V` where the key is missing.
  abbrev pub or_zero : V → Option V → V
  or_zero z none = z
  or_zero z (some v) = v

  -- The values, as a `range` loop meets them.
  unfoldable pub values : Map V → List V
  values [] = []
  values ((j, v) ∷ m) = v ∷ values m

  pub lookup-insert :
      (key other : String) (value : V) (entries : Map V)
      → lookup other (insert key value entries)
        ≡ (if key == other then some value else lookup other entries)
  unfolding lookup insert
  lookup-insert key other value [] = refl
  lookup-insert key other value ((first, old) ∷ entries) = ground (
    arith,
    eq_iff key other,
    eq_iff first key,
    eq_iff first other,
    lookup-insert key other value entries,
  )

  pub lookup-insert_self :
      (key : String) (value : V) (entries : Map V)
      → lookup key (insert key value entries) ≡ some value
  lookup-insert_self key value entries = simp (lookup-insert, eq_refl)

  -- A property of the values survives a write that has it, and holds of what a read finds.
  pub All-insert {κ} :
      (P : V → Type κ) (k : String) (v : V) (m : Map V)
      → P v
      → All P (values m)
      → All P (values (insert k v m))
  unfolding values insert
  All-insert P k v [] h hs = (h, tt)
  All-insert P k v ((j, w) ∷ m) h hs = elim (Bool-cases (j == k)) [
    | inl same ↦ rw same (h, hs.1)
    | inr other ↦ rw other (hs.0, All-insert P k v m h hs.1)
  ]

  pub All-lookup {κ} :
      (P : V → Type κ) (k : String) (v : V) (m : Map V)
      → All P (values m)
      → lookup k m ≡ some v
      → P v
  unfolding values lookup
  All-lookup P k v [] hs e = cc
  All-lookup P k v ((j, w) ∷ m) hs e = elim (Bool-cases (j == k)) [
    | inl same ↦ let found : w ≡ v = cc (rw same at e) in subst P found hs.0
    | inr other ↦ All-lookup P k v m hs.1 (rw other at e)
  ]

module _ {ℓ} {V : Type ℓ} where
  -- `delete(m, k)`
  unfoldable pub delete : String → Map V → Map V
  delete key [] = []
  delete key ((other, value) ∷ entries) =
      let rest = delete key entries in if other == key then rest else (other, value) ∷ rest

  pub lookup-delete :
      (key other : String) (entries : Map V)
      → lookup other (delete key entries) ≡ (if key == other then none else lookup other entries)
  unfolding lookup delete
  lookup-delete key other [] = ground arith
  lookup-delete key other ((first, value) ∷ entries) = ground (
    arith,
    eq_iff key other,
    eq_iff first key,
    eq_iff first other,
    lookup-delete key other entries,
  )

-- `for _, v := range values { m[v.ID] = v }`
module _ {V : Type 0} (id_of : V → String) where
  unfoldable pub insert_all : List V → Map V → Map V
  insert_all [] m = m
  insert_all (v ∷ vs) m = insert_all vs (insert (id_of v) v m)
