-- ===== src/Db.antt =====
-- The tables that the workers share (alembic/versions/0001_initial.py, 0005_schedule_engine.py), as
-- lists of rows. Identifiers and texts that the code only compares are numbers; an instant is in
-- microseconds, as in Schedule. Columns that no modelled code reads or writes are left out.
use Prim.Native.String.{String}
use jobwatch.Prelude.{ℕ, Bool, false, ◌&&◌, Option, none, some, List, ◌==◌, find_first}
use jobwatch.Prelude.Int.{ℤ}
use jobwatch.Status.{JobState, UnknownReason, SlotState, JobStatus}

abbrev pub Uuid : Type 0
Uuid = ℕ

-- executions.id: a text that the sender or the server made up, or the one that the reconciler builds
-- from a job and the epoch second of a missed slot.
pub data ExecId : Type 0 where
  given : ℕ → ExecId
  missed_id : ℕ → ℕ → ExecId

abbrev pub eq_exec : ExecId → ExecId → Bool
eq_exec (given a) (given b) = a == b
eq_exec (missed_id a s) (missed_id b t) = a == b && s == t
eq_exec _ _ = false

pub data ExecStatus : Type 0 where
  scheduled running success failed timeout missed : ExecStatus

pub record Job : Type 0 where
  pub id : Uuid
  pub org_id : Uuid
  pub workspace_id : Uuid
  pub name : List ℕ
  pub description : Option ℕ
  pub kind : ℕ
  pub heartbeat_token : ℕ
  pub owner_id : Option Uuid
  pub team_id : Option Uuid
  pub server_id : Option Uuid
  pub environment_id : Option Uuid
  pub tags : List ℕ
  pub sla_target : Option ℕ
  pub paused : Bool
  pub schedule_expr : Option String
  pub tz : String
  pub grace_s : ℕ
  pub expected_runtime_s : Option ℕ
  pub created_at : ℕ
  pub generated_through : Option ℕ
  pub next_expected_at : Option ℕ
  pub late_marked_at : Option ℕ
  pub last_run_at : Option ℕ
  pub last_status : Option ExecStatus
  pub status : JobStatus
  pub job_state : JobState
  pub unknown_reason : Option UnknownReason
  pub state_since : ℕ
  pub consecutive_failures : ℕ
  pub updated_at : ℕ

pub record Server : Type 0 where
  pub id : Uuid
  pub agent_id : Option Uuid

pub record Agent : Type 0 where
  pub id : Uuid
  pub last_seen_at : Option ℕ
  pub heartbeat_interval_s : ℕ

-- A row of expected_runs.
pub record ExpectedRun : Type 0 where
  pub id : ℕ
  pub org_id : Uuid
  pub job_id : Uuid
  pub scheduled_for : ℕ
  pub grace_until : ℕ
  pub deadline : ℕ
  pub state : SlotState
  pub execution_id : Option ExecId
  pub matched_at : Option ℕ
  pub settled_at : Option ℕ

pub record Execution : Type 0 where
  pub id : ExecId
  pub org_id : Uuid
  pub job_id : Uuid
  pub agent_id : Option Uuid
  pub status : ExecStatus
  pub scheduled_ts : ℕ
  pub agent_ts_start : Option ℕ
  pub agent_ts_end : Option ℕ
  pub server_received_ts : ℕ
  pub skew_ms : ℤ
  pub duration_ms : Option ℤ
  pub exit_code : Option ℤ
  pub host : Option ℕ
  pub sequence_max : ℕ
  pub expected_run_id : Option ℕ
  pub failure_reason : Option ℕ

-- A row of execution_events, whose primary key is (execution_id, sequence).
pub record EventRow : Type 0 where
  pub org_id : Uuid
  pub execution_id : ExecId
  pub agent_id : Option Uuid
  pub sequence : ℕ
  pub server_ts : ℕ

pub data Stream : Type 0 where
  stdout stderr : Stream

-- A row of execution_logs, whose primary key is (execution_id, stream, chunk_idx); the index is 0.
pub record LogRow : Type 0 where
  pub org_id : Uuid
  pub execution_id : ExecId
  pub stream : Stream
  pub content : List ℕ

-- maintenance_windows.scope: `none` is an absent key.
pub record Scope : Type 0 where
  pub job_ids : Option (List Uuid)
  pub tags : Option (List ℕ)
  pub environment_ids : Option (List Uuid)

pub record Window : Type 0 where
  pub org_id : Uuid
  pub starts_at : ℕ
  pub ends_at : ℕ
  pub scope : Scope

pub record Db : Type 0 where
  pub jobs : List Job
  pub servers : List Server
  pub agents : List Agent
  pub expected_runs : List ExpectedRun
  pub next_run_id : ℕ
  pub executions : List Execution
  pub events : List EventRow
  pub logs : List LogRow
  pub windows : List Window

abbrev pub find_job : Uuid → Db → Option Job
find_job id db = find_first (λ j. j.id == id) db.jobs

-- LEFT JOIN servers ... LEFT JOIN agents
abbrev pub server_agent : Db → Option Uuid → Option Agent
server_agent db none = none
server_agent db (some id) = find_first (λ a. a.id == id) db.agents

abbrev pub job_server : Db → Option Uuid → Option Server
job_server db none = none
job_server db (some id) = find_first (λ sv. sv.id == id) db.servers

abbrev pub agent_of : Db → Job → Option Agent
agent_of db j = elim (job_server db j.server_id) [
  | none ↦ none
  | some sv ↦ server_agent db sv.agent_id
]

-- COALESCE(agent_ts_end, server_received_ts)
abbrev pub finished_at : Execution → ℕ
finished_at e = elim e.agent_ts_end [ none ↦ e.server_received_ts | some t ↦ t ]
