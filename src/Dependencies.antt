-- ===== src/Dependencies.antt =====
-- The dependency graph of cronsentinel/routers/topology.py, and `downstream_impact` of alerting/correlation.py. WITH
-- RECURSIVE is computed as PostgreSQL documents it: a working table, until a round brings no new row.
pub mod Reach
pub mod Rounds
pub mod Acyclic
pub mod Impact
use jobwatch.Prelude.{
  ℕ, zero, suc, ◌+◌, Bool, true, false, ◌&&◌, not, Option, none, some, List, [], ◌∷◌, ◌++◌, map,
  ◌==◌, ltb, if◌then◌else◌, keep_if, any_of, elem, length,
}
use jobwatch.Db.{Uuid, Job}
use jobwatch.Http.{Reply, ok, raised, ◌>>=◌, raise_if}
use jobwatch.Access.{Principal, developer, needs, AuditRow, audit, dependency_add}

-- A row of job_dependencies, whose primary key is the pair of jobs.
pub record Dependency : Type 0 where
  pub org_id : Uuid
  pub job_id : Uuid
  pub depends_on_job_id : Uuid

pub record Graph : Type 0 where
  pub jobs : List Job
  pub job_dependencies : List Dependency
  pub audit_logs : List AuditRow

-- What row-level security shows to a session of the organisation.
abbrev pub visible : Uuid → List Dependency → List Dependency
visible org deps = keep_if (λ d. d.org_id == org) deps

-- SELECT depends_on_job_id FROM job_dependencies WHERE job_id=:d
abbrev pub upstream : List Dependency → Uuid → List Uuid
upstream deps job =
    map (λ (d : Dependency). d.depends_on_job_id) (keep_if (λ d. d.job_id == job) deps)

-- The rows of a round that are neither in the result nor twice among themselves.
unfoldable pub fresh : List Uuid → List Uuid → List Uuid
fresh seen [] = []
fresh seen (j ∷ js) =
    let rest = fresh seen js in
    let more = j ∷ fresh (j ∷ seen) js in if elem j seen then rest else more

abbrev pub all_upstream : List Dependency → List Uuid → List Uuid
all_upstream deps [] = []
all_upstream deps (j ∷ js) = upstream deps j ++ all_upstream deps js

abbrev pub is_last_round : List Uuid → Bool
is_last_round [] = true
is_last_round (x ∷ xs) = false

-- The rounds of `up`: the result so far, and the working table.
unfoldable pub up_rounds : ℕ → List Dependency → List Uuid → List Uuid → List Uuid
unfolding fresh
up_rounds zero deps result work = result
up_rounds (suc fuel) deps result work =
    let new = fresh result (all_upstream deps work) in
    let rest = up_rounds fuel deps (result ++ new) new in if is_last_round new then result else rest

-- Each round but the last adds a job on which some row depends.
unfoldable pub up : List Dependency → Uuid → List Uuid
unfolding up_rounds fresh
up deps job =
    let first = fresh [] (upstream deps job) in up_rounds (suc (length deps)) deps first first

-- SELECT 1 FROM up WHERE j=:j
unfoldable pub would_cycle : List Dependency → Uuid → Uuid → Bool
unfolding up
would_cycle deps job depends_on = elem job (up deps depends_on)

abbrev pub knows : Uuid → List Job → Uuid → Bool
knows org jobs id = any_of (λ (j : Job). j.id == id && j.org_id == org) jobs

abbrev pub is_dependency : Uuid → Uuid → Dependency → Bool
is_dependency job depends_on d = d.job_id == job && d.depends_on_job_id == depends_on

abbrev pub new_dependency : Principal → Uuid → Uuid → Dependency
new_dependency p job depends_on = record {
  org_id = p.org_id;
  job_id = job;
  depends_on_job_id = depends_on;
}

-- INSERT ... ON CONFLICT DO NOTHING, and the audit.
abbrev pub insert_dependency : Principal → Uuid → Uuid → Graph → Graph
insert_dependency p job depends_on g =
    let more = g.job_dependencies ++ (new_dependency p job depends_on ∷ []) in
    record g {
      job_dependencies =
          if any_of (is_dependency job depends_on) g.job_dependencies
          then g.job_dependencies
          else more;
      audit_logs = g.audit_logs ++ (audit p dependency_add job ∷ []);
    }

unfoldable pub add_dependency : Principal → Uuid → Uuid → Graph → Reply Graph
unfolding would_cycle needs
add_dependency p job depends_on g = needs developer p >>= λ _.
    raise_if (job == depends_on) 400 >>= λ _.
    raise_if (not (knows p.org_id g.jobs job && knows p.org_id g.jobs depends_on)) 404 >>= λ _.
    raise_if (would_cycle (visible p.org_id g.job_dependencies) job depends_on) 409 >>= λ _.
    ok (insert_dependency p job depends_on g)

unfoldable pub remove_dependency : Principal → Uuid → Uuid → Graph → Reply Graph
unfolding needs
remove_dependency p job depends_on g = needs developer p >>= λ _. ok (record g {
  job_dependencies =
      keep_if (λ d. not (is_dependency job depends_on d && d.org_id == p.org_id))
        g.job_dependencies;
})

-- A row of `d`: a job and its depth.
abbrev pub Depth : Type 0
Depth = Uuid × ℕ

abbrev pub downstream : List Dependency → Uuid → List Uuid
downstream deps job =
    map (λ (d : Dependency). d.job_id) (keep_if (λ d. d.depends_on_job_id == job) deps)

abbrev pub max_depth : ℕ
max_depth = 10

-- UNION keeps one row of each job and depth; the rows of one round have one depth.
unfoldable pub next_level : List Dependency → List Uuid → List Uuid
unfolding fresh
next_level deps [] = []
next_level deps (j ∷ js) = downstream deps j ++ next_level deps js

-- The rounds of `d` from a depth on, where `room` rounds are left below depth 10.
unfoldable pub down_levels : ℕ → ℕ → List Dependency → List Uuid → List Depth
unfolding next_level
down_levels zero depth deps work = map (λ j. (j, depth)) work
down_levels (suc room) depth deps work =
    map (λ j. (j, depth)) work
    ++ down_levels room (suc depth) deps (fresh [] (next_level deps work))

-- The rows of `d`; the join with jobs, and the order by depth and name, are for display.
unfoldable pub downstream_impact : List Dependency → Uuid → List Depth
unfolding down_levels next_level fresh
downstream_impact deps job = down_levels 9 1 deps (fresh [] (downstream deps job))
