-- ===== src/Service/Invariant/Requests.antt =====
-- Each operation of apps/control-plane/internal/service keeps what the methods of the repository keep.
use epistemic_engine.Prelude.{String, Bool, true, false, List, [], ◌∷◌}
use epistemic_engine.Go.Keeps.{Keeps, Keeps-bind, Keeps-pure, keeps_rules}
use epistemic_engine.Go.Map.{Map}
use epistemic_engine.Go.Numbers.{Time}
use epistemic_engine.Domain.Run.{Event, Run}
use epistemic_engine.Domain.Certificate.{Certificate}
use epistemic_engine.Domain.Claim.{Claim, Evidence, Relation, Assumption, Unknown, Analysis}
use epistemic_engine.Memory.State.{Memory}
use epistemic_engine.Service.System.{Env}
use epistemic_engine.Service.Runs.{
  CreateRunInput, AddEventInput, create_run, add_event, owning_account, check_account,
  check_ai_system, occurred, publish_if,
}
use epistemic_engine.Service.Renaming.{
  rename_evidence, bind_all, bind_evidence, rename_claims, relation_id, rename_relations,
  rename_assumptions, rename_unknowns, note_id,
}
use epistemic_engine.Service.Analysis.{graph, rename_analysis, analyze_run, analyze}
use epistemic_engine.Service.Invariant.Base.{RepoKeeps, OnRepo, Keeps-new_id, service_rules}

module _ (env : Env) {P : Memory → Type 0} {Saved : Certificate → Type 0}
    (repo : RepoKeeps env P Saved) where
  owning_account-keeps : (input : CreateRunInput) → Keeps (OnRepo P) (owning_account input)
  unfolding owning_account
  owning_account-keeps input = search (keeps_rules, service_rules)

  check_account-keeps : (id : String) → Keeps (OnRepo P) (check_account id)
  unfolding check_account
  check_account-keeps id = search (keeps_rules, service_rules)

  check_ai_system-keeps : (input : CreateRunInput) → Keeps (OnRepo P) (check_ai_system input)
  unfolding check_ai_system
  check_ai_system-keeps input = search (keeps_rules, service_rules)

  pub create_run-keeps : (input : CreateRunInput) → Keeps (OnRepo P) (create_run env input)
  unfolding create_run
  create_run-keeps input =
      search
        (
          keeps_rules, service_rules, owning_account-keeps, check_account-keeps,
          check_ai_system-keeps, repo.create_run,
        )
        depth 12

  occurred-keeps : (input : AddEventInput) → Keeps (OnRepo P) (occurred env input)
  unfolding occurred
  occurred-keeps input = search (keeps_rules, service_rules)

  publish_if-keeps :
      (created : Bool) (run_id : String) (e : Event)
      → Keeps (OnRepo P) (publish_if env created run_id e)
  unfolding publish_if
  publish_if-keeps true run_id e = search (keeps_rules, service_rules)
  publish_if-keeps false run_id e = search (keeps_rules, service_rules)

  pub add_event-keeps :
      (run_id : String) (input : AddEventInput) → Keeps (OnRepo P) (add_event env run_id input)
  unfolding add_event
  add_event-keeps run_id input =
      search (keeps_rules, service_rules, occurred-keeps, publish_if-keeps, repo.add_event) depth 12

-- The loops that give identifiers touch no map.
module _ (env : Env) {P : Memory → Type 0} where
  rename_evidence-keeps :
      (now : Time) (es : List Evidence) (ids : Map String)
      → Keeps (OnRepo P) (rename_evidence env now es ids)
  unfolding rename_evidence
  rename_evidence-keeps now [] ids = search keeps_rules
  rename_evidence-keeps now (e ∷ es) ids = search (
    keeps_rules,
    service_rules,
    λ (id : String). rename_evidence-keeps now es (note_id e.id id ids),
  )

  bind_all-keeps : (c : Claim) (es : List Evidence) → Keeps (OnRepo P) (bind_all env c es)
  unfolding bind_all
  bind_all-keeps c [] = search keeps_rules
  bind_all-keeps c (e ∷ es) =
      Keeps-bind _ _ (Keeps-new_id env "rel")
        (λ id. Keeps-bind _ _ (bind_all-keeps c es) (λ x. Keeps-pure _))

  bind_evidence-keeps :
      (c : Claim) (es : List Evidence) (rs : List Relation)
      → Keeps (OnRepo P) (bind_evidence env c es rs)
  unfolding bind_evidence
  bind_evidence-keeps c es rs = search (keeps_rules, bind_all-keeps)

  rename_claims-keeps :
      (now : Time) (decision_id : String) (es : List Evidence) (cs : List Claim)
      (rs : List Relation) (ids : Map String)
      → Keeps (OnRepo P) (rename_claims env now decision_id es cs rs ids)
  unfolding rename_claims
  rename_claims-keeps now decision_id es [] rs ids = search keeps_rules
  rename_claims-keeps now decision_id es (c ∷ cs) rs ids = search (
    keeps_rules,
    service_rules,
    bind_evidence-keeps,
    λ (b : List Relation) (id : String).
        rename_claims-keeps now decision_id es cs b (note_id c.id id ids),
  )

  relation_id-keeps : (r : Relation) → Keeps (OnRepo P) (relation_id env r)
  unfolding relation_id
  relation_id-keeps r = search (keeps_rules, service_rules)

  rename_relations-keeps :
      (ids : Map String) (rs : List Relation) → Keeps (OnRepo P) (rename_relations env ids rs)
  unfolding rename_relations
  rename_relations-keeps ids [] = search keeps_rules
  rename_relations-keeps ids (r ∷ rs) =
      Keeps-bind _ _ (relation_id-keeps r)
        (λ id. Keeps-bind _ _ (rename_relations-keeps ids rs) (λ x. Keeps-pure _))

  rename_assumptions-keeps :
      (decision_id : String) (ids : Map String) (xs : List Assumption)
      → Keeps (OnRepo P) (rename_assumptions env decision_id ids xs)
  unfolding rename_assumptions
  rename_assumptions-keeps decision_id ids [] = search keeps_rules
  rename_assumptions-keeps decision_id ids (x ∷ xs) =
      Keeps-bind _ _ (Keeps-new_id env "asm")
        (λ id. Keeps-bind _ _ (rename_assumptions-keeps decision_id ids xs) (λ x. Keeps-pure _))

  rename_unknowns-keeps :
      (decision_id : String) (xs : List Unknown)
      → Keeps (OnRepo P) (rename_unknowns env decision_id xs)
  unfolding rename_unknowns
  rename_unknowns-keeps decision_id [] = search keeps_rules
  rename_unknowns-keeps decision_id (x ∷ xs) =
      Keeps-bind _ _ (Keeps-new_id env "unk")
        (λ id. Keeps-bind _ _ (rename_unknowns-keeps decision_id xs) (λ x. Keeps-pure _))

  rename_analysis-keeps :
      (now : Time) (decision_id : String) (a : Analysis)
      → Keeps (OnRepo P) (rename_analysis env now decision_id a)
  unfolding rename_analysis
  rename_analysis-keeps now decision_id a =
      search
        (
          keeps_rules, rename_evidence-keeps, rename_claims-keeps, rename_relations-keeps,
          rename_assumptions-keeps, rename_unknowns-keeps,
        )
        depth 12

  graph-keeps : (run_id : String) → Keeps (OnRepo P) (graph run_id)
  unfolding graph
  graph-keeps run_id = search service_rules

module _ (env : Env) {P : Memory → Type 0} {Saved : Certificate → Type 0}
    (repo : RepoKeeps env P Saved) where
  analyze_run-keeps : (run_id : String) (run : Run) → Keeps (OnRepo P) (analyze_run env run_id run)
  unfolding analyze_run
  analyze_run-keeps run_id run =
      search
        (keeps_rules, service_rules, graph-keeps, rename_analysis-keeps env, repo.save_analysis)
        depth 14

  pub analyze-keeps : (run_id : String) → Keeps (OnRepo P) (analyze env run_id)
  unfolding analyze
  analyze-keeps run_id = search (keeps_rules, service_rules, graph-keeps, analyze_run-keeps)
