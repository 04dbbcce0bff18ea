-- ===== src/Analyzer/Coverage.antt =====
-- When the review of apps/control-plane/internal/analysis/code_change_review.go supports a claim.
use epistemic_engine.Prelude.{
  String, Bool, true, false, not, none, some, List, [], ◌∷◌, ◌++◌, ◌≡◌, ◌↔◌, refl, arith, ◌&&◌,
  ◌||◌, ◌==◌, any_of, is_empty, All, Bool-cases, Option-cases, inl, inr,
}
use epistemic_engine.Domain.Status.{is_supported}
use epistemic_engine.Domain.Claim.{Evidence}
use epistemic_engine.Analyzer.Review.{
  RequirementAssessment, ReviewObservation, ReviewEnv, minimum_confidence, missing_evidence_types,
  last_assessment, first_failed, covered_state, reports_coverage, status_state, review_state,
}

-- An assessment that reports a failure.
abbrev pub says_failed : ReviewEnv → ReviewObservation → Bool
says_failed world o =
    let status = world.lower o.assessment.status in status == "failed" || status == "contradicted"

-- An artifact of this kind is among the evidence.
abbrev pub has_kind : List Evidence → String → Bool
has_kind es kind = any_of (λ (e : Evidence). e.kind == kind) es

last_assessment-append :
    (a : RequirementAssessment) (os : List ReviewObservation) (last : ReviewObservation)
    → last_assessment a (os ++ last ∷ []) ≡ last.assessment
unfolding last_assessment
last_assessment-append a [] last = refl
last_assessment-append a (o ∷ os) last = last_assessment-append o.assessment os last

missing_evidence_types-none :
    (es : List Evidence) (required : List String)
    → All (λ kind. has_kind es kind ≡ true) required
    → is_empty (missing_evidence_types es required) ≡ true
unfolding missing_evidence_types
missing_evidence_types-none es [] h = refl
missing_evidence_types-none es (kind ∷ kinds) h = rw h.0 (missing_evidence_types-none es kinds h.1)

none-missing_evidence_types :
    (es : List Evidence) (required : List String)
    → is_empty (missing_evidence_types es required) ≡ true
    → All (λ kind. has_kind es kind ≡ true) required
unfolding missing_evidence_types
none-missing_evidence_types es [] h = tt
none-missing_evidence_types es (kind ∷ kinds) h = elim (Bool-cases (has_kind es kind)) [
  | inl t ↦ (t, none-missing_evidence_types es kinds (rw t at h))
  | inr f ↦ cc (rw f at h)
]

module _ (world : ReviewEnv) where
  first_failed-none :
      (os : List ReviewObservation)
      → All (λ o. says_failed world o ≡ false) os
      → first_failed world os ≡ none
  unfolding first_failed
  first_failed-none [] h = refl
  first_failed-none (o ∷ os) h = rw h.0 (first_failed-none os h.1)

  All-first_failed :
      (os : List ReviewObservation)
      → first_failed world os ≡ none
      → All (λ o. says_failed world o ≡ false) os
  unfolding first_failed
  All-first_failed [] h = tt
  All-first_failed (o ∷ os) h = elim (Bool-cases (says_failed world o)) [
    | inl t ↦ cc (rw t at h)
    | inr f ↦ (f, All-first_failed os (rw f at h))
  ]

  supported-covered_state :
      (a : RequirementAssessment) (es : List Evidence) (required : List String)
      → is_supported (covered_state world a es required).0 ≡ (
          not (world.below a.confidence minimum_confidence)
          && not (is_empty es)
          && is_empty (missing_evidence_types es required))
  unfolding covered_state
  supported-covered_state a es required = ground arith

  supported-status_state :
      (a : RequirementAssessment) (es : List Evidence) (required : List String)
      → is_supported (status_state world a es required).0
        ≡ (reports_coverage world a && is_supported (covered_state world a es required).0)
  unfolding status_state
  supported-status_state a es required = ground arith

-- The conditions for support of a requirement with these assessments, one after the other and the last
-- one apart.
pub record IsCovered (world : ReviewEnv) (os : List ReviewObservation) (last : ReviewObservation)
    (es : List Evidence) (required : List String) : Type 0 where
  pub no_failure : All (λ o. says_failed world o ≡ false) (os ++ last ∷ [])
  pub covered :
      (world.lower last.assessment.status == "passed"
        || world.lower last.assessment.status == "covered")
      ≡ true
  pub confident : world.below last.assessment.confidence minimum_confidence ≡ false
  pub referenced : is_empty es ≡ false
  pub complete : All (λ kind. has_kind es kind ≡ true) required

module _ (world : ReviewEnv) (last : ReviewObservation) (es : List Evidence)
    (required : List String) where
  review_state-fine :
      (os : List ReviewObservation)
      → first_failed world (os ++ last ∷ []) ≡ none
      → review_state world (os ++ last ∷ []) es required
        ≡ status_state world last.assessment es required
  unfolding review_state last_assessment
  review_state-fine [] fine = rw (review_state, fine) refl
  review_state-fine (o ∷ os) fine =
      rw (review_state, fine, last_assessment-append o.assessment os last) refl

  review_state-failed :
      (os : List ReviewObservation) (f : ReviewObservation)
      → first_failed world (os ++ last ∷ []) ≡ some f
      → is_supported (review_state world (os ++ last ∷ []) es required).0 ≡ false
  unfolding review_state
  review_state-failed [] f failed = rw (review_state, failed) refl
  review_state-failed (o ∷ os) f failed = rw (review_state, failed) refl

  supported-IsCovered :
      (os : List ReviewObservation)
      → is_supported (review_state world (os ++ last ∷ []) es required).0 ≡ true
      → IsCovered world os last es required
  supported-IsCovered os h = elim (Option-cases (first_failed world (os ++ last ∷ []))) [
    | inr (f, failed) ↦ cc (h, review_state-failed os f failed)
    | inl fine ↦
        let s =
          rw
            (
              review_state-fine os fine,
              supported-status_state world last.assessment es required,
              supported-covered_state world last.assessment es required,
            )
            at h in
        record {
          no_failure = All-first_failed world (os ++ last ∷ []) fine;
          covered = ground arith;
          confident = ground arith;
          referenced = ground arith;
          complete = none-missing_evidence_types es required (ground arith);
        }
  ]

  IsCovered-supported :
      (os : List ReviewObservation)
      → IsCovered world os last es required
      → is_supported (review_state world (os ++ last ∷ []) es required).0 ≡ true
  IsCovered-supported os c =
      rw
        (
          review_state-fine os (first_failed-none world (os ++ last ∷ []) c.no_failure),
          supported-status_state world last.assessment es required,
          supported-covered_state world last.assessment es required,
          c.covered,
          c.confident,
          c.referenced,
          missing_evidence_types-none es required c.complete,
        )
        refl

-- A requirement with assessments counts as supported exactly when the lowered status of none of them
-- is "failed" or "contradicted", the last one has status "passed" or "covered" and at least the
-- minimum confidence, some artifact that the assessments refer to was observed, and for every
-- required kind of evidence such an artifact of this kind. So confidence alone supports nothing.
pub supported-review_state_iff :
    (world : ReviewEnv) (os : List ReviewObservation) (last : ReviewObservation)
    (es : List Evidence) (required : List String)
    → (is_supported (review_state world (os ++ last ∷ []) es required).0 ≡ true)
      ↔ IsCovered world os last es required
supported-review_state_iff world os last es required =
    (supported-IsCovered world last es required os, IsCovered-supported world last es required os)
