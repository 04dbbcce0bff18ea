-- ===== src/Policy/Order.antt =====
-- The gate of policy.go reads the claims and the unknowns as collections: their order decides no
-- verdict, and only the order of the conditions.
use mathlib.Core.Bool.{Bool-set}
use mathlib.Core.Logic.{∥∥₁_elim, ∥∥₁_map}
use mathlib.Core.Path.{subst₂}
use mathlib.Core.List.{Perm, Permᴰ}
use mathlib.Core.List.Permᴰ
use mathlib.Core.List.Perm
use epistemic_engine.Prelude.{
  String, Bool, none, some, List, [], ◌∷◌, ◌≡◌, refl, arith, ap, ◌∙◌, any_of, is_empty, sym,
  Option-cases, select, Bool-cases, inl, inr,
}
use epistemic_engine.Domain.Status.{is_rejected, is_contradicted}
use epistemic_engine.Domain.Claim.{Graph}
use epistemic_engine.Policy.{evaluate, partial_condition, retain_condition}
use epistemic_engine.Policy.Laws.{
  evaluate-eq-spec, first_obstacle, expected_conditions, partial_conditions, is_critical,
  is_blocking, is_open, passing_verdict, has_external, has_partial,
}

module _ {A : Type 0} (p : A → Bool) where
  any_of-permᴰ : {xs ys : List A} → Permᴰ xs ys → any_of p xs ≡ any_of p ys
  any_of-permᴰ Permᴰ.nil = refl
  any_of-permᴰ (Permᴰ.cons e h) = cc (e, any_of-permᴰ h)
  any_of-permᴰ (Permᴰ.swap e f) = ground (arith, ap p e, ap p f)
  any_of-permᴰ (Permᴰ.trans h k) = any_of-permᴰ h ∙ any_of-permᴰ k

  any_of-perm : {xs ys : List A} → Perm xs ys → any_of p xs ≡ any_of p ys
  any_of-perm h = ∥∥₁_elim h (Bool-set _ _) any_of-permᴰ

  select-cons_permᴰ :
      (x y : A) (xs ys : List A)
      → x ≡ y
      → Permᴰ (select p xs) (select p ys)
      → Permᴰ (select p (x ∷ xs)) (select p (y ∷ ys))
  select-cons_permᴰ x y xs ys e h = elim (Bool-cases (p x)) [
    | inl t ↦ rw (t, (rw e at t)) (Permᴰ.cons e h)
    | inr f ↦ rw (f, (rw e at f)) h
  ]

  select-swap : (a b : A) (l : List A) → Permᴰ (select p (a ∷ b ∷ l)) (select p (b ∷ a ∷ l))
  select-swap a b l = elim (Bool-cases (p a)) [
    | inl s ↦ rw s (elim (Bool-cases (p b)) [
      | inl t ↦ rw t (Permᴰ.swap refl refl)
      | inr t ↦ rw t (Permᴰ.refl _)
    ])
    | inr s ↦ rw s (Permᴰ.refl _)
  ]

  select-permᴰ : {xs ys : List A} → Permᴰ xs ys → Permᴰ (select p xs) (select p ys)
  select-permᴰ Permᴰ.nil = Permᴰ.nil
  select-permᴰ (Permᴰ.cons {a} {b} {l₁} {l₂} e h) = select-cons_permᴰ a b l₁ l₂ e (select-permᴰ h)
  select-permᴰ (Permᴰ.swap {a} {b} {l = l} e f) =
      subst₂ (λ x y. Permᴰ (select p (a ∷ b ∷ l)) (select p (x ∷ y ∷ l))) f e (select-swap a b l)
  select-permᴰ (Permᴰ.trans h k) = Permᴰ.trans (select-permᴰ h) (select-permᴰ k)

  select-perm : {xs ys : List A} → Perm xs ys → Perm (select p xs) (select p ys)
  select-perm h = ∥∥₁_map h select-permᴰ

is_empty-permᴰ : {A : Type 0} {xs ys : List A} → Permᴰ xs ys → is_empty xs ≡ is_empty ys
is_empty-permᴰ Permᴰ.nil = refl
is_empty-permᴰ (Permᴰ.cons e h) = refl
is_empty-permᴰ (Permᴰ.swap e f) = refl
is_empty-permᴰ (Permᴰ.trans h k) = is_empty-permᴰ h ∙ is_empty-permᴰ k

passing_verdict-is_empty :
    (xs ys : List String) → is_empty xs ≡ is_empty ys → passing_verdict xs ≡ passing_verdict ys
passing_verdict-is_empty xs ys h = ground arith

passing_verdict-perm : (xs ys : List String) → Perm xs ys → passing_verdict xs ≡ passing_verdict ys
passing_verdict-perm xs ys h =
    passing_verdict-is_empty xs ys (∥∥₁_elim h (Bool-set _ _) is_empty-permᴰ)

module _ (g g' : Graph) (claims : Perm g.claims g'.claims) where
  first_obstacle-perm : Perm g.unknowns g'.unknowns → first_obstacle g ≡ first_obstacle g'
  first_obstacle-perm unknowns = cc (
    any_of-perm (λ c. is_rejected c.state) claims,
    any_of-perm is_critical claims,
    any_of-perm (λ c. is_contradicted c.state) claims,
    any_of-perm is_blocking claims,
    any_of-perm is_open unknowns,
  )

  partial_conditions-perm : Perm (partial_conditions g.claims) (partial_conditions g'.claims)
  partial_conditions-perm = Perm.map partial_condition (select-perm has_partial claims)

  expected_conditions-perm : Perm (expected_conditions g) (expected_conditions g')
  expected_conditions-perm = elim (Bool-cases (any_of has_external g.claims)) [
    | inl t ↦
        rw (t, ← any_of-perm has_external claims, t)
          (Perm.append_right (retain_condition ∷ []) partial_conditions-perm)
    | inr t ↦ rw (t, ← any_of-perm has_external claims, t) partial_conditions-perm
  ]

-- Two graphs with the same claims and the same unknowns in any order get the same verdict, the same
-- permission and the same conditions up to their order.
pub evaluate-perm :
    (g g' : Graph) (h : Bool)
    → Perm g.claims g'.claims
    → Perm g.unknowns g'.unknowns
    → ((evaluate g h).verdict ≡ (evaluate g' h).verdict)
      × ((evaluate g h).action_allowed ≡ (evaluate g' h).action_allowed)
      × Perm (evaluate g h).conditions (evaluate g' h).conditions
evaluate-perm g g' h claims unknowns =
    rw (evaluate-eq-spec g h, evaluate-eq-spec g' h)
      (elim (Option-cases (first_obstacle g)) [
        | inl e ↦
            let e' : first_obstacle g' ≡ none =
              sym (first_obstacle-perm g g' claims unknowns) ∙ e in
            rw (e, e')
              (
                passing_verdict-perm _ _ (expected_conditions-perm g g' claims),
                refl,
                expected_conditions-perm g g' claims,
              )
        | inr (v, e) ↦
            let e' : first_obstacle g' ≡ some v =
              sym (first_obstacle-perm g g' claims unknowns) ∙ e in
            rw (e, e') (refl, refl, Perm.refl [])
      ])
