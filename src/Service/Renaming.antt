-- ===== src/Service/Renaming.antt =====
-- apps/control-plane/internal/service/service.go: the part of `Analyze` that gives what the analyzer
-- found its identifiers. `ids` is `idMap`, from the analyzer's identifiers to the new ones.
use epistemic_engine.Prelude.{
  String, Bool, List, [], ◌∷◌, ◌++◌, ◌&&◌, ◌||◌, not, ◌==◌, map, is_empty, if◌then◌else◌,
}
use epistemic_engine.Go.Effect.{Exec, ◌>>=◌, pure}
use epistemic_engine.Go.Map.{Map, lookup, insert, or_zero}
use epistemic_engine.Go.Numbers.{Time, time_is_zero}
use epistemic_engine.Go.Text.{or_default}
use epistemic_engine.Domain.Status.{RelationType, is_supported, is_contradicted}
use epistemic_engine.Domain.Claim.{Claim, Evidence, Relation, Assumption, Unknown}
use epistemic_engine.Service.System.{Env, System, new_id}

-- `if original != "" { idMap[original] = id }`
unfoldable pub note_id : String → String → Map String → Map String
note_id original id ids = if original == "" then ids else insert original id ids

-- `if mapped := idMap[id]; mapped != "" { id = mapped }`
unfoldable pub mapped_id : Map String → String → String
mapped_id ids id = let mapped = or_zero "" (lookup id ids) in if mapped == "" then id else mapped

abbrev pub support_semantics : String
support_semantics = "explainable evidence support; not probability of truth"

abbrev pub importance_of : Claim → String
importance_of c = or_default c.importance (if c.critical then "critical" else "supporting")

-- The assignments to a claim before its evidence is bound.
unfoldable pub prepare_claim : Time → String → String → Claim → Claim
prepare_claim now decision_id id c = record c {
  id = id;
  decision_id = decision_id;
  created_at = now;
  importance = importance_of c;
  support = record c.support { semantics = or_default c.support.semantics support_semantics };
}

abbrev pub relation_type_of : Claim → RelationType
relation_type_of c =
    if is_contradicted c.state then RelationType.contradicts else RelationType.supports

-- The claims of which all evidence is bound when the analyzer gives no relation.
abbrev pub binds_evidence : Claim → List Evidence → List Relation → Bool
binds_evidence c evidence relations =
    is_empty relations
    && (is_supported c.state || is_contradicted c.state)
    && not (is_empty evidence)

module _ (env : Env) where
  unfoldable pub rename_evidence :
      Time → List Evidence → Map String → Exec System (List Evidence × Map String)
  rename_evidence now [] ids = pure ([], ids)
  rename_evidence now (e ∷ es) ids = do
    id ← new_id env "evd"
    rest ← rename_evidence now es (note_id e.id id ids)
    let at = if time_is_zero e.observed_at then now else e.observed_at
    pure (record e { id = id; observed_at = at } ∷ rest.0, rest.1)

  -- The loop over `a.Evidence` under `a.Relations` being empty: the relations that it appends.
  unfoldable pub bind_all : Claim → List Evidence → Exec System (List Relation)
  bind_all c [] = pure []
  bind_all c (e ∷ es) = do
    id ← new_id env "rel"
    rest ← bind_all c es
    pure (
        record {
          id = id;
          from_id = e.id;
          to_id = c.id;
          type = relation_type_of c;
          rationale = c.justification;
        }
        ∷ rest)

  unfoldable pub bind_evidence :
      Claim → List Evidence → List Relation → Exec System (Claim × List Relation)
  bind_evidence c evidence relations =
      if not (binds_evidence c evidence relations) then pure (c, relations) else do
        added ← bind_all c evidence
        pure (
          record c { evidence_ids = c.evidence_ids ++ map (λ (e : Evidence). e.id) evidence },
          relations ++ added,
        )

  -- The loop over `a.Claims`, on the relations so far.
  unfoldable pub rename_claims :
      Time
      → String
      → List Evidence
      → List Claim
      → List Relation
      → Map String
      → Exec System (List Claim × List Relation × Map String)
  rename_claims now decision_id evidence [] relations ids = pure ([], relations, ids)
  rename_claims now decision_id evidence (c ∷ cs) relations ids = do
    id ← new_id env "clm"
    bound ← bind_evidence (prepare_claim now decision_id id c) evidence relations
    rest ← rename_claims now decision_id evidence cs bound.1 (note_id c.id id ids)
    pure (bound.0 ∷ rest.0, rest.1, rest.2)

  -- `if a.Relations[i].ID == "" { ... }`
  unfoldable pub relation_id : Relation → Exec System String
  relation_id r = if r.id == "" then new_id env "rel" else pure r.id

  unfoldable pub rename_relations : Map String → List Relation → Exec System (List Relation)
  rename_relations ids [] = pure []
  rename_relations ids (r ∷ rs) = do
    id ← relation_id r
    rest ← rename_relations ids rs
    pure (
        record r { id = id; from_id = mapped_id ids r.from_id; to_id = mapped_id ids r.to_id }
        ∷ rest)

  unfoldable pub rename_assumptions :
      String → Map String → List Assumption → Exec System (List Assumption)
  rename_assumptions decision_id ids [] = pure []
  rename_assumptions decision_id ids (a ∷ as') = do
    id ← new_id env "asm"
    rest ← rename_assumptions decision_id ids as'
    pure (
        record a { id = id; decision_id = decision_id; claim_id = mapped_id ids a.claim_id } ∷ rest)

  unfoldable pub rename_unknowns : String → List Unknown → Exec System (List Unknown)
  rename_unknowns decision_id [] = pure []
  rename_unknowns decision_id (u ∷ us) = do
    id ← new_id env "unk"
    rest ← rename_unknowns decision_id us
    pure (record u { id = id; decision_id = decision_id } ∷ rest)

-- The loop that renames `EvidenceIDs`.
unfoldable pub rename_evidence_ids : Map String → Claim → Claim
unfolding mapped_id
rename_evidence_ids ids c = record c { evidence_ids = map (mapped_id ids) c.evidence_ids }
