-- ===== src/JobState.antt =====
-- cronsentinel/job_state.py: the one place that derives and stores a job's four-state.
pub mod Outcomes
pub mod Stored
use Prim.Native.String.{String}
use text.Mathlib.Text.{◌==◌ as str_eq}
use jobwatch.Prelude.{
  ℕ, ◌+◌, ◌*◌, ◌-◌, Bool, true, false, ◌&&◌, ◌||◌, Option, none, some, List, [], ◌∷◌, ltb, ◌==◌,
  if◌then◌else◌, is_some, keep_if, any_of, update_where, count_where, sort_desc, maximum, map,
  truthy, not,
}
use jobwatch.Status.{
  JobState, UnknownReason, SlotState, JobStatus, Facts, derive, legacy_status, is_succeeded,
  in_bad_slots, eq_state, eq_status, eq_reason,
}
use jobwatch.Schedule.{seconds}
use jobwatch.Db.{
  Uuid, ExecId, ExecStatus, Job, Agent, ExpectedRun, Execution, Db, find_job, agent_of, finished_at,
}

abbrev pub offline_multiplier : ℕ
offline_multiplier = 3

-- The payload of jobstatus.*: what the two producers announce.
pub record StatusEvent : Type 0 where
  pub org_id : Uuid
  pub job_id : Uuid
  pub execution_id : Option ExecId
  pub prev_status : JobStatus
  pub new_status : JobStatus
  pub prev_state : Option JobState
  pub new_state : Option JobState
  pub unknown_reason : Option UnknownReason
  pub consecutive_failures : ℕ

abbrev pub is_late_slot : SlotState → Bool
is_late_slot SlotState.late = true
is_late_slot _ = false

abbrev pub is_running : ExecStatus → Bool
is_running ExecStatus.running = true
is_running _ = false

abbrev pub is_success : ExecStatus → Bool
is_success ExecStatus.success = true
is_success _ = false

-- status IN ('failed','timeout','missed')
abbrev pub is_failure : ExecStatus → Bool
is_failure ExecStatus.failed = true
is_failure ExecStatus.timeout = true
is_failure ExecStatus.missed = true
is_failure _ = false

-- status IN ('success','failed','timeout','missed')
abbrev pub is_final : ExecStatus → Bool
is_final s = is_success s || is_failure s

-- The dictionary `_outcome`, as a slot state.
abbrev pub outcome : ExecStatus → Option SlotState
outcome ExecStatus.success = some SlotState.succeeded
outcome ExecStatus.failed = some SlotState.failed
outcome ExecStatus.timeout = some SlotState.failed
outcome ExecStatus.missed = some SlotState.missed
outcome _ = none

-- The job's terminal executions, the one that finished last first.
unfoldable pub timeline : Db → Uuid → List Execution
timeline db job_id =
    sort_desc finished_at (keep_if (λ e. e.job_id == job_id && is_final e.status) db.executions)

abbrev pub first_outcome : List Execution → Option SlotState
first_outcome [] = none
first_outcome (e ∷ _) = outcome e.status

abbrev pub second_outcome : List Execution → Option SlotState
second_outcome [] = none
second_outcome (_ ∷ rest) = first_outcome rest

unfoldable pub open_late : Db → Uuid → Bool
open_late db job_id = any_of (λ r. r.job_id == job_id && is_late_slot r.state) db.expected_runs

unfoldable pub has_running : Db → Uuid → Bool
has_running db job_id = any_of (λ e. e.job_id == job_id && is_running e.status) db.executions

-- `j.agent_hb or 60`
abbrev pub interval_or : ℕ → ℕ
interval_or hb = if truthy hb then hb else 60

unfoldable pub agent_offline : Option Agent → ℕ → Bool
agent_offline none now = false
agent_offline (some a) now = elim a.last_seen_at [
  | none ↦ false
  | some seen ↦ ltb (seconds (interval_or a.heartbeat_interval_s * offline_multiplier)) (now - seen)
]

-- Failures that finished after the last success.
abbrev pub after_last : Option ℕ → ℕ → Bool
after_last none t = true
after_last (some last) t = ltb last t

unfoldable pub failures_since_success : Db → Uuid → ℕ
failures_since_success db job_id =
    let last =
      maximum (
        map finished_at (keep_if (λ e. e.job_id == job_id && is_success e.status) db.executions)) in
    count_where
      (λ e. (e.job_id == job_id && is_failure e.status) && after_last last (finished_at e))
      db.executions

-- `bool(j.schedule_expr)`: no text and the empty text are false.
abbrev pub has_text : Option String → Bool
has_text none = false
has_text (some s) = not (str_eq s "")

-- What `derive` is told of a job.
unfoldable pub facts_of : Db → Job → ℕ → Facts
facts_of db j now = record {
  paused = j.paused;
  has_schedule = has_text j.schedule_expr;
  ever_ran = is_some j.last_run_at;
  agent_offline = agent_offline (agent_of db j) now;
  open_late = open_late db j.id;
  running = has_running db j.id;
  last_settled = first_outcome (timeline db j.id);
}

unfoldable pub recovered : Db → Uuid → Bool
recovered db job_id =
    is_succeeded (first_outcome (timeline db job_id))
    && in_bad_slots (second_outcome (timeline db job_id))

-- The first return: nothing to announce, and only the count is written.
abbrev pub store_count : ℕ → Job → Job
store_count fails j = record j { consecutive_failures = fails }

abbrev pub store_state : JobState → Option UnknownReason → JobStatus → ℕ → ℕ → Job → Job
store_state state reason legacy fails now j = record j {
  job_state = state;
  unknown_reason = reason;
  status = legacy;
  consecutive_failures = fails;
  state_since = if eq_state j.job_state state then j.state_since else now;
  updated_at = now;
}

abbrev pub write_job : Uuid → (Job → Job) → Db → Db
write_job job_id f db = record db { jobs = update_where (λ j. j.id == job_id) f db.jobs }

-- The state, the reason and the status that `recompute_state` computes for a job row.
pub record Computed : Type 0 where
  pub state : JobState
  pub reason : Option UnknownReason
  pub legacy : JobStatus
  pub fails : ℕ

unfoldable pub compute : Db → Job → ℕ → Computed
compute db j now =
    let f = facts_of db j now in
    let (state, reason) = derive f in
    record {
      state = state;
      reason = reason;
      legacy = legacy_status state j.paused f.running f.last_settled (recovered db j.id);
      fails = failures_since_success db j.id;
    }

-- The row already says what was computed.
abbrev pub unchanged : Computed → Job → Bool
unchanged c j =
    eq_state c.state j.job_state
    && (eq_status c.legacy j.status && eq_reason c.reason j.unknown_reason)

abbrev pub announce : Uuid → Uuid → Computed → Job → StatusEvent
announce job_id org_id c j = record {
  org_id = org_id;
  job_id = job_id;
  execution_id = none;
  prev_status = j.status;
  new_status = c.legacy;
  prev_state = some j.job_state;
  new_state = some c.state;
  unknown_reason = c.reason;
  consecutive_failures = c.fails;
}

-- `recompute_state` once the job's row is found, with what was computed.
unfoldable pub recompute_row : Uuid → Uuid → ℕ → Db → Job → Computed → Option StatusEvent × Db
recompute_row job_id org_id now db j c =
    if unchanged c j then (none, write_job job_id (store_count c.fails) db) else (
      some (announce job_id org_id c j),
      write_job job_id (store_state c.state c.reason c.legacy c.fails now) db,
    )

abbrev pub recompute_found : Uuid → Uuid → ℕ → Db → Option Job → Option StatusEvent × Db
recompute_found job_id org_id now db none = (none, db)
recompute_found job_id org_id now db (some j) =
    recompute_row job_id org_id now db j (compute db j now)

unfoldable pub recompute_state : Uuid → Uuid → ℕ → Db → Option StatusEvent × Db
recompute_state job_id org_id now db = recompute_found job_id org_id now db (find_job job_id db)
