-- ===== src/Memory/State.antt =====
-- apps/control-plane/internal/store/memory.go: the maps of `Memory`.
use epistemic_engine.Prelude.{[]}
use epistemic_engine.Go.Map.{Map}
use epistemic_engine.Domain.Portfolio.{Account, Project, AiSystem}
use epistemic_engine.Domain.Connection.{ProjectConnection, ProjectReport, PublishedCertificate}
use epistemic_engine.Domain.Run.{Run, Decision}
use epistemic_engine.Domain.Claim.{Claim, Evidence, Relation, Assumption, Unknown, Verification}
use epistemic_engine.Domain.Certificate.{Certificate}

pub record Memory : Type 0 where
  pub accounts : Map Account
  pub projects : Map Project
  pub ai_systems : Map AiSystem
  pub connections : Map ProjectConnection
  pub reports : Map ProjectReport
  pub publications : Map PublishedCertificate
  pub runs : Map Run
  pub decisions : Map Decision
  pub claims : Map Claim
  pub evidence : Map Evidence
  pub relations : Map Relation
  pub assumptions : Map Assumption
  pub unknowns : Map Unknown
  pub verifications : Map Verification
  pub certificates : Map Certificate

abbrev pub new_memory : Memory
new_memory = record {
  accounts = [];
  projects = [];
  ai_systems = [];
  connections = [];
  reports = [];
  publications = [];
  runs = [];
  decisions = [];
  claims = [];
  evidence = [];
  relations = [];
  assumptions = [];
  unknowns = [];
  verifications = [];
  certificates = [];
}
