-- ===== src/Service/Invariant/Uniqueness.antt =====
-- The repository in memory (internal/store/memory_portfolio.go, memory_integration.go) keeps the
-- slugs of accounts and of an account's projects apart, and gives a project one active connection.
use mathlib.Core.Path.{subst}
use epistemic_engine.Prelude.{
  String, Bool, some, ◌&&◌, ◌≡◌, refl, sym, ◌∙◌, arith, eq_iff, any_of, Option-cases, Bool-cases,
  inl, inr, ◌==◌,
}
use epistemic_engine.Go.Effect.{Exec}
use epistemic_engine.Go.Keeps.{Keeps}
use epistemic_engine.Go.Map.{Map, lookup, insert, values, lookup-insert, has_key}
use epistemic_engine.Go.Distinct.{Distinct, insert-Distinct, fails-lookup}
use epistemic_engine.Go.Numbers.{Time}
use epistemic_engine.Domain.Portfolio.{Account, Project}
use epistemic_engine.Domain.Connection.{ProjectConnection, ProjectIngest}
use epistemic_engine.Memory.State.{Memory}
use epistemic_engine.Memory.Runs.{create_run, add_event, save_analysis}
use epistemic_engine.Memory.Verifications.{save_verifications, update_verification}
use epistemic_engine.Memory.Decisions.{save_decision, save_certificate}
use epistemic_engine.Memory.Portfolio.{create_account, create_project, create_ai_system}
use epistemic_engine.Memory.Connections.{
  create_project_connection, revoke_project_connection, save_project_ingest,
}
use epistemic_engine.Service.System.{Env}
use epistemic_engine.Service.Invariant.Base.{RepoKeeps, IsIssued}

abbrev same_slug : Account → Account → Bool
same_slug a b = a.slug == b.slug

abbrev same_project_slug : Project → Project → Bool
same_project_slug p q = p.account_id == q.account_id && p.slug == q.slug

abbrev both_active : ProjectConnection → ProjectConnection → Bool
both_active c d = c.project_id == d.project_id && c.status == "active" && d.status == "active"

pub record Unique (m : Memory) : Type 0 where
  pub accounts : Distinct same_slug m.accounts
  pub projects : Distinct same_project_slug m.projects
  pub connections : Distinct both_active m.connections
  pub keyed : (id : String) (c : ProjectConnection) → lookup id m.connections ≡ some c → c.id ≡ id

module _ {A : Type 0} (f : Exec Memory A) where
  frame :
      ((m : Memory)
        → ((f m).1.accounts ≡ m.accounts)
          × ((f m).1.projects ≡ m.projects)
          × ((f m).1.connections ≡ m.connections))
      → Keeps Unique f
  frame same = record {
    at = λ m h.
        let e = same m in
        record {
          accounts = rw e.0 h.accounts;
          projects = rw e.1 h.projects;
          connections = rw e.2 h.connections;
          keyed = rw e.2 h.keyed;
        };
  }

same_slug_sym : (a b : Account) → same_slug a b ≡ same_slug b a
same_slug_sym a b = ground (arith, eq_iff a.slug b.slug, eq_iff b.slug a.slug)

same_project_slug_sym : (p q : Project) → same_project_slug p q ≡ same_project_slug q p
same_project_slug_sym p q = ground (
  arith,
  eq_iff p.account_id q.account_id,
  eq_iff q.account_id p.account_id,
  eq_iff p.slug q.slug,
  eq_iff q.slug p.slug,
)

both_active_sym : (c d : ProjectConnection) → both_active c d ≡ both_active d c
both_active_sym c d =
    ground (arith, eq_iff c.project_id d.project_id, eq_iff d.project_id c.project_id)

create_account-Unique : (a : Account) → Keeps Unique (create_account a)
unfolding create_account
create_account-Unique a = record {
  at = λ m h.
      let clashes = λ (e : Account). same_slug e a in
      elim (Bool-cases (any_of clashes (values m.accounts))) [
        | inl taken ↦ rw (create_account, taken) h
        | inr new ↦
            rw (create_account, new)
              (record {
                accounts =
                    insert-Distinct same_slug same_slug_sym a.id a m.accounts
                      (λ i v there both.
                        let apart = fails-lookup clashes i v m.accounts new there in ground arith)
                      h.accounts;
                projects = h.projects;
                connections = h.connections;
                keyed = h.keyed;
              })
      ];
}

create_project-Unique : (p : Project) → Keeps Unique (create_project p)
unfolding create_project
create_project-Unique p = record {
  at = λ m h.
      let clashes = λ (e : Project). same_project_slug e p in
      elim (Bool-cases (has_key p.account_id m.accounts)) [
        | inr missing ↦ rw (create_project, missing) h
        | inl there ↦ elim (Bool-cases (any_of clashes (values m.projects))) [
          | inl taken ↦ rw (create_project, there, taken) h
          | inr new ↦
              rw (create_project, there, new)
                (record {
                  accounts = h.accounts;
                  projects =
                      insert-Distinct same_project_slug same_project_slug_sym p.id p m.projects
                        (λ i v found both.
                          let apart = fails-lookup clashes i v m.projects new found in ground arith)
                        h.projects;
                  connections = h.connections;
                  keyed = h.keyed;
                })
        ]
      ];
}

-- A write of a connection under its identifier.
insert-keyed :
    (c : ProjectConnection) (id : String) (m : Map ProjectConnection)
    → c.id ≡ id
    → ((i : String) (d : ProjectConnection) → lookup i m ≡ some d → d.id ≡ i)
    → (i : String) (d : ProjectConnection) → lookup i (insert id c m) ≡ some d
    → d.id ≡ i
insert-keyed c id m same old i d there = elim (Bool-cases (id == i)) [
  | inl here ↦
      let found : c ≡ d = cc (rw (lookup-insert, here) at there) in
      subst (λ (e : ProjectConnection). e.id ≡ i) found (same ∙ ground (arith, eq_iff id i))
  | inr off ↦ old i d (rw (lookup-insert, off) at there)
]

create_project_connection-Unique :
    (c : ProjectConnection) → Keeps Unique (create_project_connection c)
unfolding create_project_connection
create_project_connection-Unique c = record {
  at = λ m h.
      let clashes =
        λ (e : ProjectConnection). e.project_id == c.project_id && e.status == "active" in
      elim (Option-cases (lookup c.project_id m.projects)) [
        | inl missing ↦ rw (create_project_connection, missing) h
        | inr (p, found) ↦ elim (Bool-cases (p.account_id == c.account_id)) [
          | inr foreign ↦ rw (create_project_connection, found, foreign) h
          | inl own ↦ elim (Bool-cases (any_of clashes (values m.connections))) [
            | inl taken ↦ rw (create_project_connection, found, own, taken) h
            | inr new ↦
                rw (create_project_connection, found, own, new)
                  (record {
                    accounts = h.accounts;
                    projects = h.projects;
                    connections =
                        insert-Distinct both_active both_active_sym c.id c m.connections
                          (λ i v there both.
                            let apart = fails-lookup clashes i v m.connections new there in
                            ground arith)
                          h.connections;
                    keyed = insert-keyed c c.id m.connections refl h.keyed;
                  })
          ]
        ]
      ];
}

revoke_project_connection-Unique : (id : String) → Keeps Unique (revoke_project_connection id)
unfolding revoke_project_connection
revoke_project_connection-Unique id = record {
  at = λ m h. elim (Option-cases (lookup id m.connections)) [
    | inl missing ↦ rw (revoke_project_connection, missing) h
    | inr (c, found) ↦
        let revoked = record c { status = "revoked" } in
        rw (revoke_project_connection, found)
          (record {
            accounts = h.accounts;
            projects = h.projects;
            connections =
                insert-Distinct both_active both_active_sym id revoked m.connections
                  (λ i v there both. ground arith) h.connections;
            keyed = insert-keyed revoked id m.connections (h.keyed id c found) h.keyed;
          })
  ];
}

-- A connection that was seen at a time, where its maps beside it may have grown.
seen-Unique :
    (c : ProjectConnection) (id : String) (time : Time) (m m' : Memory)
    → lookup id m.connections ≡ some c
    → m'.accounts ≡ m.accounts
    → m'.projects ≡ m.projects
    → m'.connections ≡ insert c.id (record c { last_seen_at = some time }) m.connections
    → Unique m
    → Unique m'
seen-Unique c id time m m' found accounts projects connections h =
    let seen = record c { last_seen_at = some time } in
    record {
      accounts = rw accounts h.accounts;
      projects = rw projects h.projects;
      connections = rw connections (
          insert-Distinct both_active both_active_sym c.id seen m.connections
            (λ i v there both.
              h.connections.one i id v c there found both ∙ sym (h.keyed id c found))
            h.connections);
      keyed = rw connections (insert-keyed seen c.id m.connections refl h.keyed);
    }

save_project_ingest-Unique : (t : Time) (i : ProjectIngest) → Keeps Unique (save_project_ingest t i)
unfolding save_project_ingest
save_project_ingest-Unique t i = record {
  at = λ m h. elim (Option-cases (lookup i.connection.id m.connections)) [
    | inl missing ↦ rw (save_project_ingest, missing) h
    | inr (c, found) ↦ elim (Bool-cases (c.status == "active")) [
      | inr revoked ↦ rw (save_project_ingest, found, revoked) h
      | inl active ↦ elim (Option-cases i.report) [
        | inr (r, report) ↦
            seen-Unique c i.connection.id r.received_at m _ found (ground arith) (ground arith)
              (ground arith) h
        | inl no_report ↦ elim (Option-cases i.certificate) [
          | inr (p, certificate) ↦
              seen-Unique c i.connection.id p.received_at m _ found (ground arith) (ground arith)
                (ground arith) h
          | inl no_certificate ↦
              seen-Unique c i.connection.id t m _ found (ground arith) (ground arith) (ground arith)
                h
        ]
      ]
    ]
  ];
}

pub Unique-repo : (env : Env) → RepoKeeps env Unique (IsIssued env)
unfolding create_run add_event save_analysis save_verifications update_verification save_decision
    save_certificate create_ai_system
Unique-repo env = record {
  create_run = λ r d. frame (create_run r d) (λ m. (refl, refl, refl));
  add_event = λ id e. frame (add_event id e) (λ m. (ground arith, ground arith, ground arith));
  save_analysis =
      λ id a. frame (save_analysis id a) (λ m. (ground arith, ground arith, ground arith));
  save_verifications = λ vs h. frame (save_verifications vs) (λ m. (refl, refl, refl));
  update_verification =
      λ v h. frame (update_verification v) (λ m. (ground arith, ground arith, ground arith));
  save_decision = λ d. frame (save_decision d) (λ m. (ground arith, ground arith, ground arith));
  save_certificate =
      λ c h. frame (save_certificate c) (λ m. (ground arith, ground arith, ground arith));
  create_account = create_account-Unique;
  create_project = create_project-Unique;
  create_ai_system =
      λ s. frame (create_ai_system s) (λ m. (ground arith, ground arith, ground arith));
  create_project_connection = create_project_connection-Unique;
  revoke_project_connection = revoke_project_connection-Unique;
  save_project_ingest = save_project_ingest-Unique;
}
