-- ===== src/Go/Distinct.antt =====
-- Maps in which no two entries clash, as a check over all the values before a write ensures it. No
-- code of the repository is modelled here.
use mathlib.Core.Path.{subst}
use epistemic_engine.Prelude.{
  String, Bool, true, false, some, [], ◌∷◌, ◌≡◌, sym, ◌∙◌, arith, ◌==◌, eq_iff, any_of, Bool-cases,
  inl, inr,
}
use epistemic_engine.Go.Map.{Map, lookup, insert, values, lookup-insert}

module _ {V : Type 0} where
  -- A value that a lookup finds fails a test that all the values fail.
  pub fails-lookup :
      (test : V → Bool) (id : String) (v : V) (m : Map V)
      → any_of test (values m) ≡ false
      → lookup id m ≡ some v
      → test v ≡ false
  unfolding lookup values
  fails-lookup test id v [] none there = cc
  fails-lookup test id v ((key, x) ∷ m) none there = elim (Bool-cases (key == id)) [
    | inl same ↦
        let found : x ≡ v = cc (rw same at there) in
        subst (λ w. test w ≡ false) found (ground arith)
    | inr other ↦ fails-lookup test id v m (ground arith) (rw other at there)
  ]

  at_key :
      (key i : String) (x v : V) (m : Map V)
      → (key == i) ≡ true
      → lookup i (insert key x m) ≡ some v
      → x ≡ v
  at_key key i x v m same there = cc (rw (lookup-insert, same) at there)

  off_key :
      (key i : String) (x v : V) (m : Map V)
      → (key == i) ≡ false
      → lookup i (insert key x m) ≡ some v
      → lookup i m ≡ some v
  off_key key i x v m other there = rw (lookup-insert, other) at there

  -- Two values that clash stand under one key.
  pub record Distinct (clash : V → V → Bool) (m : Map V) : Type 0 where
    pub one :
        (i j : String) (v w : V)
        → lookup i m ≡ some v
        → lookup j m ≡ some w
        → clash v w ≡ true
        → i ≡ j

  module _ (clash : V → V → Bool) (clash_sym : (v w : V) → clash v w ≡ clash w v) where
    pub insert-Distinct :
        (key : String) (x : V) (m : Map V)
        → ((i : String) (v : V) → lookup i m ≡ some v → clash v x ≡ true → i ≡ key)
        → Distinct clash m
        → Distinct clash (insert key x m)
    insert-Distinct key x m only old = record {
      one = λ i j v w hi hj both. elim (Bool-cases (key == i)) [
        | inl at_i ↦ elim (Bool-cases (key == j)) [
          | inl at_j ↦ ground (arith, eq_iff key i, eq_iff key j)
          | inr off_j ↦
              let found = at_key key i x v m at_i hi in
              let with_x : clash w x ≡ true =
                clash_sym w x ∙ subst (λ u. clash u w ≡ true) (sym found) both in
              let back = only j w (off_key key j x w m off_j hj) with_x in
              ground (arith, eq_iff key i)
        ]
        | inr off_i ↦ elim (Bool-cases (key == j)) [
          | inl at_j ↦
              let found = at_key key j x w m at_j hj in
              let with_x = subst (λ u. clash v u ≡ true) (sym found) both in
              let back = only i v (off_key key i x v m off_i hi) with_x in
              ground (arith, eq_iff key j)
          | inr off_j ↦
              old.one i j v w (off_key key i x v m off_i hi) (off_key key j x w m off_j hj) both
        ]
      ];
    }
