-- ===== src/Jobs.antt =====
-- cronsentinel/routers/jobs.py: `create_job`, `update_job` and `delete_job`, with the checks of schemas.py and
-- `purge_job` of alembic/versions/0009_lifecycle.py. croniter's `is_valid` and whether the environment and the team that
-- a body names are there, are arguments; an update to a negative number is not modelled.
pub mod Handlers
pub mod Created
pub mod Updated
pub mod Deleted
pub mod Listing
use Prim.Native.String.{String}
use jobwatch.Prelude.{
  ℕ, Bool, true, false, ◌&&◌, ◌||◌, not, Option, none, some, List, [], ◌∷◌, ◌++◌, ◌==◌, leb,
  if◌then◌else◌, any_of, keep_if, map, is_some, length, coalesce,
}
use jobwatch.Status.{JobState, JobStatus}
use jobwatch.Db.{Uuid, Job, ExpectedRun, Execution, EventRow, LogRow, Db, eq_exec}
use jobwatch.JobState.{has_text}
use jobwatch.Access.{AuditRow, Text, eq_text, or_else}
use jobwatch.Dependencies.{Dependency}
use jobwatch.Discovery.{is_full}

-- sla_target is in hundredths of a percent.
pub record JobCreate : Type 0 where
  pub workspace_id : Uuid
  pub name : Text
  pub description : Option ℕ
  pub kind : ℕ
  pub schedule_expr : Option String
  pub tz : String
  pub expected_runtime_s : Option ℕ
  pub grace_s : ℕ
  pub environment_id : Option Uuid
  pub team_id : Option Uuid
  pub tags : List ℕ
  pub sla_target : Option ℕ

pub record JobUpdate : Type 0 where
  pub description : Option ℕ
  pub schedule_expr : Option String
  pub tz : Option String
  pub expected_runtime_s : Option ℕ
  pub grace_s : Option ℕ
  pub tags : Option (List ℕ)
  pub sla_target : Option ℕ
  pub paused : Option Bool

-- A row of k8s_cronjobs, and one of status_pages.
pub record CronRow : Type 0 where
  pub id : Uuid
  pub job_id : Option Uuid

pub record Page : Type 0 where
  pub id : Uuid
  pub job_ids : List Uuid

pub record Estate : Type 0 where
  pub db : Db
  pub cronjobs : List CronRow
  pub pages : List Page
  pub dependencies : List Dependency
  pub audit_logs : List AuditRow

-- `_valid_cron`
unfoldable pub valid_cron : (String → Bool) → Option String → Bool
valid_cron validate none = true
valid_cron validate (some v) = validate v

abbrev pub in_range : ℕ → ℕ → ℕ → Bool
in_range low high n = leb low n && leb n high

abbrev pub at_least_one : Option ℕ → Bool
at_least_one none = true
at_least_one (some n) = leb 1 n

abbrev pub at_most : ℕ → Option ℕ → Bool
at_most high none = true
at_most high (some n) = leb n high

unfoldable pub valid_create : (String → Bool) → JobCreate → Bool
unfolding valid_cron
valid_create validate b =
    in_range 1 200 (length b.name)
    && (at_least_one b.expected_runtime_s
        && (at_most 10000 b.sla_target && valid_cron validate b.schedule_expr))

-- `lim and lim.max_jobs is not None and lim.n >= lim.max_jobs`
abbrev pub over_limit : Option (Option ℕ) → ℕ → Bool
over_limit none n = false
over_limit (some max_jobs) n = is_full max_jobs n

-- The primary key and the UNIQUE constraints of jobs.
abbrev pub collides : Uuid → ℕ → Uuid → Text → Job → Bool
collides id token ws name j =
    j.id == id || (j.heartbeat_token == token || (j.workspace_id == ws && eq_text j.name name))

-- What the body sets, and the defaults of the columns.
unfoldable pub job_of : ℕ → Uuid → Option Uuid → Uuid → ℕ → Option ℕ → JobCreate → Job
job_of now org owner id token next b = record {
  id = id;
  org_id = org;
  workspace_id = b.workspace_id;
  name = b.name;
  description = b.description;
  kind = b.kind;
  heartbeat_token = token;
  owner_id = owner;
  team_id = b.team_id;
  server_id = none;
  environment_id = b.environment_id;
  tags = b.tags;
  sla_target = b.sla_target;
  paused = false;
  schedule_expr = b.schedule_expr;
  tz = b.tz;
  grace_s = b.grace_s;
  expected_runtime_s = b.expected_runtime_s;
  created_at = now;
  generated_through = none;
  next_expected_at = next;
  late_marked_at = none;
  last_run_at = none;
  last_status = none;
  status = if has_text b.schedule_expr then JobStatus.healthy else JobStatus.unknown;
  job_state = JobState.unknown;
  unknown_reason = none;
  state_since = now;
  consecutive_failures = 0;
  updated_at = now;
}

-- `not fields`
abbrev pub is_empty_update : JobUpdate → Bool
is_empty_update u = not (
    is_some u.description
    || (is_some u.schedule_expr
        || (is_some u.tz
            || (is_some u.expected_runtime_s
                || (is_some u.grace_s
                    || (is_some u.tags || (is_some u.sla_target || is_some u.paused)))))))

abbrev pub reschedules : JobUpdate → Bool
reschedules u = is_some u.schedule_expr || is_some u.tz

abbrev pub status_after : Option Bool → JobStatus → JobStatus
status_after none status = status
status_after (some paused) status = if paused then JobStatus.paused else JobStatus.unknown

-- The UPDATE; `next` is there when the schedule is set.
unfoldable pub set_fields : ℕ → JobUpdate → Option (Option ℕ) → Job → Job
set_fields now u next j = record j {
  description = or_else u.description j.description;
  schedule_expr = or_else u.schedule_expr j.schedule_expr;
  tz = coalesce u.tz j.tz;
  expected_runtime_s = or_else u.expected_runtime_s j.expected_runtime_s;
  grace_s = coalesce u.grace_s j.grace_s;
  tags = coalesce u.tags j.tags;
  sla_target = or_else u.sla_target j.sla_target;
  paused = coalesce u.paused j.paused;
  next_expected_at = coalesce next j.next_expected_at;
  late_marked_at = if is_some next then none else j.late_marked_at;
  status = status_after u.paused j.status;
  updated_at = now;
}

-- id=:id in the session of the organisation.
abbrev pub is_own_job : Uuid → Uuid → Job → Bool
is_own_job org id j = j.id == id && j.org_id == org

-- execution_id IN (SELECT id FROM executions WHERE job_id = p_job)
abbrev pub runs_with : Uuid → List Execution → EventRow → Bool
runs_with job runs r =
    any_of (λ (e : Execution). eq_exec e.id r.execution_id)
      (keep_if (λ (e : Execution). e.job_id == job) runs)

abbrev pub logs_of : Uuid → List Execution → LogRow → Bool
logs_of job runs r =
    any_of (λ (e : Execution). eq_exec e.id r.execution_id)
      (keep_if (λ (e : Execution). e.job_id == job) runs)

abbrev pub is_cron_of : Uuid → CronRow → Bool
is_cron_of job r = elim r.job_id [ none ↦ false | some j ↦ j == job ]

-- array_remove(job_ids, p_job); a page without the job is left as it is.
abbrev pub unlist : Uuid → Page → Page
unlist job p = record p { job_ids = keep_if (λ j. not (j == job)) p.job_ids }

unfoldable pub purge_job : Uuid → Estate → Estate
purge_job job t = record t {
  db = record t.db {
    events = keep_if (λ r. not (runs_with job t.db.executions r)) t.db.events;
    logs = keep_if (λ r. not (logs_of job t.db.executions r)) t.db.logs;
    executions = keep_if (λ (e : Execution). not (e.job_id == job)) t.db.executions;
    expected_runs = keep_if (λ (r : ExpectedRun). not (r.job_id == job)) t.db.expected_runs;
  };
  cronjobs = keep_if (λ r. not (is_cron_of job r)) t.cronjobs;
  pages = map (unlist job) t.pages;
}

-- ON DELETE CASCADE of job_dependencies.
abbrev pub mentions : Uuid → Dependency → Bool
mentions job d = d.job_id == job || d.depends_on_job_id == job

-- DELETE FROM jobs WHERE id=:id, with what the row takes along.
abbrev pub remove_job : Uuid → Uuid → Estate → Estate
remove_job org id t = record t {
  db = record t.db { jobs = keep_if (λ j. not (is_own_job org id j)) t.db.jobs };
  dependencies = keep_if (λ d. not (mentions id d)) t.dependencies;
}
