-- ===== src/Service/Planning.antt =====
-- apps/control-plane/internal/service/service.go: `Plan`; and the choice of a check for a claim of
-- apps/control-plane/internal/verification/planner.go. The JSON of a specification is `json`.
use epistemic_engine.Prelude.{
  ℕ, String, Bool, true, false, not, List, [], ◌∷◌, ◌&&◌, ◌||◌, ◌==◌, is_empty, none, if◌then◌else◌,
}
use epistemic_engine.Go.Effect.{Exec, ◌>>=◌, ◌>>◌, pure}
use epistemic_engine.Go.Numbers.{RawMessage}
use epistemic_engine.Go.Text.{concat, contains_lower}
use epistemic_engine.Domain.Status.{is_supported, is_externally_verified}
use epistemic_engine.Domain.Claim.{Claim, Verification}
use epistemic_engine.Memory.Graph.{get_graph_by_decision}
use epistemic_engine.Memory.Verifications.{save_verifications}
use epistemic_engine.Service.System.{
  Env, System, Payload, repo_call, repo_read, read_clock, new_id, publish,
}

-- verification.Specification, and the instructions for a human reviewer.
pub data Specification : Type 0 where
  automated : String → String → List String → ℕ → Specification
  instructions : String → List String → Specification

-- The file of the `switch`, "" where no case applies.
unfoldable pub test_file : Claim → String
unfolding contains_lower
test_file c =
    if contains_lower "backward-compatible" c.statement
      || contains_lower "compatibility" c.statement
    then "test_compatibility.py"
    else if contains_lower "pii" c.statement
        || contains_lower "personal" c.statement
        || contains_lower "email" c.statement
    then "test_pii_logging.py"
    else ""

-- verification.SpecificationForClaim
unfoldable pub specification_for_claim : Claim → String × Specification
unfolding test_file
specification_for_claim c =
    let file = test_file c in
    if file == ""
    then (
      "human",
      Specification.instructions "A human reviewer must supply evidence for this bounded claim."
          c.required_evidence_types,
    )
    else (
      "test",
      Specification.automated "python:3.12-alpine" "unsafe-orders-pr"
          ("python" ∷ "-m" ∷ "unittest" ∷ "discover" ∷ "-s" ∷ "tests" ∷ "-p" ∷ file ∷ "-v" ∷ []) 45,
    )

-- The claims for which `Plan` makes a check.
abbrev pub needs_check : Claim → Bool
needs_check c = c.critical && not (is_supported c.state) && not (is_externally_verified c.state)

module _ (env : Env) (json : Specification → RawMessage) where
  unfoldable pub plan_claim : String → Claim → Exec System Verification
  plan_claim decision_id c = do
    let spec = specification_for_claim c
    id ← new_id env "ver"
    now ← read_clock env
    pure (record {
      id = id;
      decision_id = decision_id;
      claim_id = c.id;
      check = concat "Create and run the smallest targeted check for: " c.statement;
      kind = spec.0;
      specification = json spec.1;
      environment = "sandbox";
      status = "planned";
      requires_approval = true;
      approved = false;
      approved_by = "";
      outcome = "";
      artifact = [];
      artifact_hash = "";
      created_at = now;
      executed_at = none;
    })

  -- The loop over `g.Claims`.
  unfoldable pub plan_claims : String → List Claim → Exec System (List Verification)
  plan_claims decision_id [] = pure []
  plan_claims decision_id (c ∷ cs) =
      let later = plan_claims decision_id cs in
      if not (needs_check c)
      then later
      else do v ← plan_claim decision_id c; vs ← later; pure (v ∷ vs)

  unfoldable pub save_plan : String → List Verification → Exec System (List Verification)
  save_plan run_id [] = pure []
  save_plan run_id (v ∷ vs) = do
    repo_call (save_verifications (v ∷ vs))
    publish env run_id "verification.plan.created" (Payload.plan (v ∷ vs))
    pure (v ∷ vs)

  unfoldable pub plan : String → Exec System (List Verification)
  plan decision_id = do
    g ← repo_read (get_graph_by_decision decision_id)
    if not (is_empty g.verifications)
        then pure g.verifications
        else do out ← plan_claims decision_id g.claims; save_plan g.run.id out
