-- ===== src/Engine/Context.antt =====
-- What alerting/engine.py reads before it decides: `_job_ctx`, `_record_change`, and `signals_for_job` of
-- alerting/correlation.py; and `handle_status_change` with all of it.
use jobwatch.Prelude.{
  ℕ, ◌+◌, ◌-◌, ◌*◌, not, Bool, true, false, ◌&&◌, ◌||◌, Option, none, some, List, [], ◌∷◌, map,
  ◌==◌, ltb, leb, if◌then◌else◌, is_some, coalesce, keep_if, find_first, count_where, sort_desc,
  maximum,
}
use jobwatch.Schedule.{seconds}
use jobwatch.Db.{Uuid, ExecId, ExecStatus, Job, Execution, Db}
use jobwatch.JobState.{StatusEvent}
use jobwatch.Rules.{Rule, JobCtx, Zones, suppressed_unknown}
use jobwatch.Dependencies.{Dependency, upstream}
use jobwatch.Engine.{Signals, DedupKey, Alerts}
use jobwatch.Engine.Handle.{handle_status_change}

-- Columns that Db leaves out: jobs.cluster_id and jobs.sla_window in days, executions.deploy_version, and the namespace
-- of the first row of k8s_cronjobs for a job.
pub record Columns : Type 0 where
  pub cluster_id : Uuid → Option Uuid
  pub sla_days : Uuid → ℕ
  pub deploy_version : ExecId → Option ℕ
  pub namespace : Uuid → Option ℕ

-- WHERE id=:id AND org_id=:o
abbrev pub job_row : Uuid → Uuid → Db → Option Job
job_row org id db = find_first (λ (j : Job). j.id == id && j.org_id == org) db.jobs

abbrev pub runs_of : Uuid → Db → List Execution
runs_of id db = keep_if (λ (e : Execution). e.job_id == id) db.executions

abbrev pub first_run : List Execution → Option Execution
first_run [] = none
first_run (e ∷ es) = some e

-- ORDER BY scheduled_ts DESC LIMIT 1
abbrev pub last_run : Uuid → Db → Option Execution
last_run id db = first_run (sort_desc (λ (e : Execution). e.scheduled_ts) (runs_of id db))

-- SELECT job_id FROM job_dependencies WHERE depends_on_job_id=:id
abbrev pub dependents : List Dependency → Uuid → List Uuid
dependents deps job =
    map (λ (d : Dependency). d.job_id) (keep_if (λ d. d.depends_on_job_id == job) deps)

abbrev pub cluster_ns_of : Columns → Uuid → Option Job → Option (Uuid × ℕ)
cluster_ns_of cols job none = none
cluster_ns_of cols job (some j) = elim (cols.cluster_id j.id) [
  | none ↦ none
  | some c ↦ elim (cols.namespace job) [ none ↦ none | some ns ↦ some (c, ns) ]
]

unfoldable pub signals_for_job : Db → List Dependency → Columns → Uuid → Uuid → Signals
signals_for_job db deps cols org job = record {
  host = elim (last_run job db) [ none ↦ none | some e ↦ e.host ];
  cluster_ns = cluster_ns_of cols job (job_row org job db);
  deploy_version = elim (last_run job db) [ none ↦ none | some e ↦ cols.deploy_version e.id ];
  upstream = upstream deps job;
  downstream = dependents deps job;
}

-- status IN ('failed','timeout','missed')
abbrev pub is_failure : ExecStatus → Bool
is_failure ExecStatus.failed = true
is_failure ExecStatus.timeout = true
is_failure ExecStatus.missed = true
is_failure _ = false

abbrev pub is_success : ExecStatus → Bool
is_success ExecStatus.success = true
is_success _ = false

-- '1970-01-01'
abbrev pub unix_epoch : ℕ
unix_epoch = seconds 62135596800

abbrev pub last_success : Uuid → Db → ℕ
last_success id db =
    coalesce
      (maximum (
        map (λ (e : Execution). e.scheduled_ts)
          (keep_if (λ (e : Execution). is_success e.status) (runs_of id db))))
      unix_epoch

unfoldable pub failures_since : Uuid → Db → ℕ
failures_since id db =
    count_where (λ (e : Execution). is_failure e.status && ltb (last_success id db) e.scheduled_ts)
      (runs_of id db)

-- The successes and all runs with an outcome since the window began; no rate where there are none.
abbrev pub in_sla_window : ℕ → ℕ → Execution → Bool
in_sla_window now days e =
    leb (now - seconds (days * 86400)) e.scheduled_ts
    && (is_success e.status || is_failure e.status)

unfoldable pub success_rate : Uuid → ℕ → ℕ → Db → Option (ℕ × ℕ)
success_rate id now days db =
    let runs = keep_if (in_sla_window now days) (runs_of id db) in
    let rate : ℕ × ℕ = (
      count_where (λ (e : Execution). is_success e.status) runs,
      count_where (λ (e : Execution). true) runs,
    ) in
    if count_where (λ (e : Execution). true) runs == 0 then none else some rate

abbrev pub ctx_of : Db → Columns → ℕ → Job → JobCtx
ctx_of db cols now j = record {
  id = j.id;
  tags = j.tags;
  environment_id = j.environment_id;
  workspace_id = j.workspace_id;
  team_id = j.team_id;
  consecutive_failures = failures_since j.id db;
  success_rate = success_rate j.id now (cols.sla_days j.id) db;
  sla_target = j.sla_target;
}

unfoldable pub job_ctx : Db → Columns → ℕ → Uuid → Uuid → Option JobCtx
job_ctx db cols now org job = elim (job_row org job db) [
  | none ↦ none
  | some j ↦ some (ctx_of db cols now j)
]

-- ZADD, whose members are instants; ZREMRANGEBYSCORE up to an hour ago; ZRANGE.
abbrev pub add_change : ℕ → List ℕ → List ℕ
add_change now [] = now ∷ []
add_change now (t ∷ ts) =
    let rest = t ∷ add_change now ts in
    let before = now ∷ t ∷ ts in if t == now then t ∷ ts else (if ltb now t then before else rest)

unfoldable pub record_change : ℕ → List ℕ → List ℕ
record_change now changes = keep_if (λ t. ltb now (t + seconds 3600)) (add_change now changes)

-- What the engine writes: the tables of incidents with the queue, and flap:<job> of Redis.
pub record EngineState : Type 0 where
  pub alerts : Alerts
  pub flaps : Uuid → List ℕ

-- A change is recorded unless it is suppressed or the job is not there.
abbrev pub set_flaps : Bool → Uuid → ℕ → EngineState → Uuid → List ℕ
set_flaps false job now st k = st.flaps k
set_flaps true job now st k = if k == job then record_change now (st.flaps job) else st.flaps k

unfoldable pub on_status_change :
    Zones
    → Db
    → List Dependency
    → Columns
    → List Rule
    → (DedupKey → Option ℕ)
    → StatusEvent
    → ℕ
    → EngineState
    → EngineState
unfolding handle_status_change signals_for_job job_ctx record_change
on_status_change zones db deps cols rules last_sent ev now st =
    let ctx = job_ctx db cols now ev.org_id ev.job_id in
    let changes = record_change now (st.flaps ev.job_id) in
    record {
      alerts =
          handle_status_change zones ev now changes db.windows rules
            (signals_for_job db deps cols ev.org_id ev.job_id) last_sent ctx st.alerts;
      flaps =
          set_flaps
            (is_some ctx && not (is_some (suppressed_unknown ev.new_state ev.unknown_reason)))
            ev.job_id now st;
    }
