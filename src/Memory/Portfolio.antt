-- ===== src/Memory/Portfolio.antt =====
-- apps/control-plane/internal/store/memory_portfolio.go: accounts, projects and AI systems.
use epistemic_engine.Prelude.{String, Option, none, some, ◌&&◌, ◌==◌, any_of, not, if◌then◌else◌}
use epistemic_engine.Go.Effect.{not_found, store_conflict, Result, ok, err, or_error, Exec}
use epistemic_engine.Go.Map.{lookup, insert, values, has_key}
use epistemic_engine.Domain.Portfolio.{Account, Project, AiSystem}
use epistemic_engine.Memory.State.{Memory}

unfoldable pub create_account : Account → Exec Memory (Unit {0})
create_account account m =
    if any_of (λ (e : Account). e.slug == account.slug) (values m.accounts)
    then (err (store_conflict "account slug already exists"), m)
    else (ok tt, record m { accounts = insert account.id account m.accounts })

unfoldable pub get_account : String → Memory → Result Account
get_account id m = or_error not_found (lookup id m.accounts)

unfoldable pub create_project : Project → Exec Memory (Unit {0})
create_project project m =
    if not (has_key project.account_id m.accounts)
    then (err not_found, m)
    else if any_of (λ (e : Project). e.account_id == project.account_id && e.slug == project.slug)
        (values m.projects)
    then (err (store_conflict "project slug already exists"), m)
    else (ok tt, record m { projects = insert project.id project m.projects })

unfoldable pub get_project : String → Memory → Result Project
get_project id m = or_error not_found (lookup id m.projects)

create_ai_system_in : AiSystem → Option Project → Exec Memory (Unit {0})
create_ai_system_in system none m = (err not_found, m)
create_ai_system_in system (some project) m =
    if not (project.account_id == system.account_id)
    then (err not_found, m)
    else (ok tt, record m { ai_systems = insert system.id system m.ai_systems })

unfoldable pub create_ai_system : AiSystem → Exec Memory (Unit {0})
unfolding create_ai_system_in
create_ai_system system m = create_ai_system_in system (lookup system.project_id m.projects) m

unfoldable pub get_ai_system : String → Memory → Result AiSystem
get_ai_system id m = or_error not_found (lookup id m.ai_systems)
