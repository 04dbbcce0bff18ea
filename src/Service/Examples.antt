-- ===== src/Service/Examples.antt =====
-- Runs of the service of apps/control-plane/internal/service in a small world outside it, and the
-- theorems about it at concrete requests.
use epistemic_engine.Prelude.{
  ℕ, zero, suc, String, true, false, none, some, List, [], ◌∷◌, ◌≡◌, refl,
}
use epistemic_engine.Go.Effect.{ok, err, invalid}
use epistemic_engine.Go.Map.{lookup, values}
use epistemic_engine.Go.Sort.{sort_by}
use epistemic_engine.Go.Numbers.{RawMessage, pos}
use epistemic_engine.Go.Text.{concat}
use epistemic_engine.Domain.Status.{ClaimState, Verdict}
use epistemic_engine.Domain.Claim.{Claim, Verification, Analysis, zero_claim}
use epistemic_engine.Domain.Certificate.{Certificate}
use epistemic_engine.Memory.State.{new_memory}
use epistemic_engine.Memory.Verifications.{get_verification}
use epistemic_engine.Service.System.{Env, System}
use epistemic_engine.Service.Runs.{CreateRunInput}
use epistemic_engine.Service.Planning.{Specification}
use epistemic_engine.Service.Execution.{ExecuteVerificationInput, execute_verification}
use epistemic_engine.Domain.Run.{zero_run, zero_decision}
use epistemic_engine.Domain.Claim.{Graph}
use epistemic_engine.Memory.Graph.{graph, get_graph_by_decision}
use epistemic_engine.Service.Evaluation.{evaluate}
use epistemic_engine.Service.Completion.{
  result_of, statement_of, sha_256, execute_verification_completes, evaluate_issues,
}
use epistemic_engine.Service.Operations.{Refusal, execute_verification_refused}
use epistemic_engine.Service.Ingest.{IngestInput, IngestEnv}
use epistemic_engine.Service.Invariant.Reach.{Request, new_system, serve}
use epistemic_engine.Service.Invariant.Certificates.{AllIssued}
use epistemic_engine.Service.Invariant.Verifications.{AllSound}
use epistemic_engine.Service.Invariant.Uniqueness.{Unique}
use epistemic_engine.Service.Invariant.Safety.{
  serve-AllIssued, serve-HasCertificate, serve-AllSound, serve-Unique,
}

abbrev hex : ℕ → String
hex zero = "0"
hex (suc n) = concat "1" (hex n)

abbrev tested : Claim
tested = record zero_claim {
  id = "tested";
  statement = "The tests pass.";
  critical = true;
  state = ClaimState.externally_verified;
}

abbrev analysis : Analysis
analysis = record {
  claims = tested ∷ [];
  evidence = [];
  relations = [];
  assumptions = [];
  unknowns = [];
}

-- A world where the clock stands, hashing gives one text, and the analyzer finds one claim.
abbrev world : Env
world = record {
  now = λ n. 1;
  random_hex = hex;
  random_token = hex;
  sha256_hex = λ bytes. "digest";
  marshal = λ p. some (123 ∷ 125 ∷ []);
  marshal_certificate = λ c. some (123 ∷ 125 ∷ []);
  analyze = λ run decision. ok analysis;
  execute = λ v. ok (record { outcome = "passed"; artifact = 123 ∷ 125 ∷ [] });
}

abbrev json : Specification → RawMessage
json s = 123 ∷ 125 ∷ []

-- Every report is a passed one, and no certificate can be read.
abbrev content : IngestEnv
content = record {
  decode_report =
      λ bytes. some (record { tool = ""; status = "passed"; exit_code = pos 0; summary = "" });
  decode_certificate = λ bytes. none;
  decode_result = λ bytes. none;
  certificate_hash = λ c. none;
  is_null = λ bytes. false;
  fallback = 0;
}

abbrev run_input : CreateRunInput
run_input = record {
  account_id = "";
  project_id = "";
  ai_system_id = "";
  external_trace_id = "";
  title = "";
  goal = "";
  source = "";
  recommendation = "Deploy the change.";
  action_type = "";
  subject = "";
  risk_level = "";
  raw = [];
}

abbrev run_in_sandbox : ExecuteVerificationInput
run_in_sandbox = record {
  environment = "sandbox";
  outcome = "";
  artifact = [];
  approved = true;
  approved_by = "";
}

-- A run is created, analyzed, planned for, verified in the sandbox and evaluated with approval.
abbrev review : List Request
review =
    Request.create_run run_input
    ∷ Request.analyze "run_0"
    ∷ Request.plan "dec_10"
    ∷ Request.execute_verification "ver_1110" run_in_sandbox
    ∷ Request.evaluate "dec_10" true
    ∷ []

abbrev issued : Certificate
issued = record {
  version = "v1";
  decision_id = "d";
  run_id = "r";
  recommendation = "Deploy the change.";
  verdict = Verdict.rejected;
  action_allowed = false;
  human_approved = false;
  conditions = [];
  policy_version = "software-deployment/v1";
  artifact_hashes = [];
  claims = [];
  verifications = [];
  issued_at = 1;
  proof = record { algorithm = "SHA-256"; digest = "digest" };
}

abbrev with_certificate : System
with_certificate = record new_system {
  repo = record new_memory { certificates = ("d", issued) ∷ [] };
}

abbrev planned : Verification
planned = record {
  id = "v";
  decision_id = "d";
  claim_id = "tested";
  check = "Run the tests.";
  kind = "test";
  specification = [];
  environment = "production";
  status = "planned";
  requires_approval = true;
  approved = false;
  approved_by = "";
  outcome = "";
  artifact = [];
  artifact_hash = "";
  created_at = 1;
  executed_at = none;
}

abbrev with_verification : System
with_verification = record new_system {
  repo = record new_memory { verifications = ("v", planned) ∷ [] };
}

abbrev unapproved : ExecuteVerificationInput
unapproved = record run_in_sandbox { approved = false }

serve-AllIssued_example :
    AllIssued world (serve world json content review new_system).repo.certificates
serve-AllIssued_example = serve-AllIssued world json content review

serve-AllSound_example : AllSound world (serve world json content review new_system).repo
serve-AllSound_example = serve-AllSound world json content review

serve-HasCertificate_example :
    lookup "d"
      (serve world json content (Request.evaluate "d" true ∷ []) with_certificate).repo.certificates
    ≡ some issued
unfolding lookup
serve-HasCertificate_example =
    serve-HasCertificate world json content (Request.evaluate "d" true ∷ []) with_certificate "d"
      issued refl

execute_verification_refused_example :
    execute_verification world "v" unapproved with_verification ≡ (
      err (invalid "explicit human approval is required before verification execution"),
      with_verification,
    )
unfolding lookup get_verification
execute_verification_refused_example =
    execute_verification_refused world "v" unapproved with_verification planned
      (invalid "explicit human approval is required before verification execution") refl
      (Refusal.approval (λ e. cc) refl refl refl)

abbrev delivery : IngestInput
delivery = record {
  external_id = "x";
  ai_system_id = "";
  policy_version = "";
  context = record { repository = "r"; commit_sha = ""; branch = ""; workflow = ""; run_url = "" };
  report = 123 ∷ 125 ∷ [];
  certificate = [];
}

abbrev onboarding : List Request
onboarding =
    Request.create_account (record { name = "Acme"; slug = "" })
    ∷ Request.create_account (record { name = "acme"; slug = "" })
    ∷ Request.create_project "acc_0"
        (record { name = "Shop"; slug = ""; repository = "acme/shop"; owner = "" })
    ∷ Request.create_project_connection "prj_110"
        (record { provider = ""; repository = "acme/shop"; endpoint = "" })
    ∷ Request.ingest_project "epk_1110" delivery
    ∷ []

serve-Unique_example : Unique (serve world json content onboarding new_system).repo
serve-Unique_example = serve-Unique world json content onboarding

abbrev staged : Verification
staged = record planned { environment = "staging" }

abbrev with_staged : System
with_staged = record new_system { repo = record new_memory { verifications = ("v", staged) ∷ [] } }

abbrev submitted : ExecuteVerificationInput
submitted = record {
  environment = "";
  outcome = "passed";
  artifact = 123 ∷ 125 ∷ [];
  approved = true;
  approved_by = "";
}

execute_verification_completes_example :
    ((execute_verification world "v" submitted with_staged).0
      ≡ ok (result_of world staged submitted with_staged))
    × (lookup "v" (execute_verification world "v" submitted with_staged).1.repo.verifications
        ≡ some (result_of world staged submitted with_staged))
unfolding lookup
execute_verification_completes_example =
    execute_verification_completes world "v" submitted with_staged staged refl refl (λ e. cc) refl
      refl refl refl

abbrev ready : Graph
ready = record {
  run = record zero_run { id = "r"; decision_id = "d" };
  decision = record zero_decision { id = "d"; run_id = "r" };
  claims = record tested { decision_id = "d" } ∷ [];
  evidence = [];
  relations = [];
  assumptions = [];
  unknowns = [];
  verifications = [];
}

abbrev with_ready : System
with_ready = record new_system {
  repo = record new_memory {
    runs = ("r", ready.run) ∷ [];
    decisions = ("d", ready.decision) ∷ [];
    claims = ("tested", record tested { decision_id = "d" }) ∷ [];
  };
}

evaluate_issues_example :
    ((evaluate world "d" true with_ready).0 ≡ ok (statement_of ready true 1 (sha_256 "digest")))
    × (lookup "d" (evaluate world "d" true with_ready).1.repo.certificates
        ≡ some (statement_of ready true 1 (sha_256 "digest")))
unfolding lookup values sort_by graph get_graph_by_decision
evaluate_issues_example =
    evaluate_issues world true with_ready ready ready.decision (123 ∷ 125 ∷ []) refl refl refl refl
