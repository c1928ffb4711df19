-- ===== src/Samples.antt =====
-- Small inputs, and what the program does on them.
pub mod States
pub mod Schedules
pub mod Tables
pub mod Deliveries
pub mod Ticks
pub mod Passes
pub mod Alerts
pub mod Pages
pub mod Hosts
pub mod Exports
pub mod Posts
pub mod Requests
pub mod Memory
pub mod Callers
pub mod Graphs
pub mod Fleets
pub mod Runs
pub mod Finds
pub mod Estates
pub mod Mails
pub mod Invoices
pub mod Lists
use Prim.Native.String.{String}
use jobwatch.Prelude.{
  ℕ, ◌+◌, ◌*◌, ◌/◌, ◌≤◌, ◌<◌, ◌≡◌, refl, Bool, true, false, Option, none, some, List, [], ◌∷◌,
}
use jobwatch.Status.{JobState, UnknownReason, SlotState, JobStatus, Facts}
use jobwatch.Schedule.{Cron}
use jobwatch.Prelude.Int.{ℤ}
use jobwatch.Db.{ExecId, given, ExecStatus, Job, ExpectedRun, Execution, Db}
use jobwatch.Ingest.{Kind, fail, ExecEvent, Env}

abbrev pub late_facts : Facts
late_facts = record {
  paused = false;
  has_schedule = true;
  ever_ran = true;
  agent_offline = false;
  open_late = true;
  running = false;
  last_settled = some SlotState.failed;
}

abbrev pub paused_facts : Facts
paused_facts = record late_facts { paused = true }

abbrev pub failing_facts : Facts
failing_facts = record late_facts { open_late = false }

-- A run on the hour, every hour.
abbrev pub hourly : Cron
hourly = record { get_next = λ expr tz after. some (after / 3600000000 * 3600000000 + 3600000000) }

-- A job of organisation 7 that failed, and is due again on the hour.
abbrev pub backup : Job
backup = record {
  id = 1;
  org_id = 7;
  workspace_id = 8;
  name = 98 ∷ [];
  description = none;
  kind = 0;
  heartbeat_token = 50;
  owner_id = none;
  team_id = none;
  server_id = none;
  environment_id = none;
  tags = [];
  sla_target = none;
  paused = false;
  schedule_expr = some "0 * * * *";
  tz = "UTC";
  grace_s = 60;
  expected_runtime_s = some 120;
  created_at = 0;
  generated_through = none;
  next_expected_at = none;
  late_marked_at = none;
  last_run_at = some 10000000;
  last_status = some ExecStatus.failed;
  status = JobStatus.failed;
  job_state = JobState.failing;
  unknown_reason = none;
  state_since = 0;
  consecutive_failures = 1;
  updated_at = 0;
}

abbrev pub slot_row : ℕ → SlotState → ExpectedRun
slot_row id state = record {
  id = id;
  org_id = 7;
  job_id = 1;
  scheduled_for = id * 3600000000;
  grace_until = id * 3600000000 + 60000000;
  deadline = id * 3600000000 + 180000000;
  state = state;
  execution_id = none;
  matched_at = none;
  settled_at = none;
}

abbrev pub failed_run : Execution
failed_run = record {
  id = given 5;
  org_id = 7;
  job_id = 1;
  agent_id = none;
  status = ExecStatus.failed;
  scheduled_ts = 9000000;
  agent_ts_start = some 9000000;
  agent_ts_end = some 10000000;
  server_received_ts = 9000000;
  skew_ms = ℤ.pos 0;
  duration_ms = none;
  exit_code = none;
  host = none;
  sequence_max = 0;
  expected_run_id = none;
  failure_reason = none;
}

abbrev pub tables : Db
tables = record {
  jobs = backup ∷ [];
  servers = [];
  agents = [];
  expected_runs = slot_row 1 SlotState.pending ∷ slot_row 2 SlotState.pending ∷ [];
  next_run_id = 3;
  executions = failed_run ∷ [];
  events = [];
  logs = [];
  windows = [];
}

abbrev pub fail_event : ExecEvent
fail_event = record {
  org_id = 7;
  job_id = 1;
  agent_id = none;
  kind = fail;
  execution_id = some (given 6);
  sequence = 1;
  agent_ts = some 3610000000;
  server_ts = some 3610000000;
  duration_ms = none;
  exit_code = none;
  host = none;
  stdout_tail = some (104 ∷ 105 ∷ []);
  stderr_tail = none;
}

abbrev pub env : ℕ → Env
env now = record { now = now; new_id = given 99; redact = λ text. text; max_log_bytes = 65536 }
