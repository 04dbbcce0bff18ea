-- ===== src/Domain/Portfolio.antt =====
-- apps/control-plane/internal/domain/portfolio.go: accounts, projects and AI systems.
use epistemic_engine.Prelude.{String, List, Option}
use epistemic_engine.Go.Numbers.{Time}

pub record Account : Type 0 where
  pub id : String
  pub name : String
  pub slug : String
  pub created_at : Time

pub record Project : Type 0 where
  pub id : String
  pub account_id : String
  pub name : String
  pub slug : String
  pub repository : String
  pub owner : String
  pub created_at : Time

pub record AiSystem : Type 0 where
  pub id : String
  pub account_id : String
  pub project_id : String
  pub name : String
  pub provider : String
  pub model : String
  pub purpose : String
  pub data_classes : List String
  pub tools : List String
  pub owner : String
  pub status : String
  pub created_at : Time
  pub updated_at : Time
  pub last_used_at : Option Time
