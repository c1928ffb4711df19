-- ===== src/Processor.antt =====
-- `process` of cronsentinel/processor.py: one execution event is stored and moves the job's state; and the
-- step of workers/exec_processor.py that decides whether it is announced.
pub mod Frame
pub mod Once
pub mod Finish
pub mod Settles
pub mod Wire
use jobwatch.Prelude.{
  ℕ, ◌+◌, Bool, true, false, ◌&&◌, not, Option, none, some, List, [], ◌∷◌, ◌++◌, ◌==◌, ltb,
  if◌then◌else◌, keep_if, find_first, update_where, minimum, map, coalesce,
}
use jobwatch.Status.{SlotState, JobStatus, eq_status}
use jobwatch.Status.Machine.{transition, started, completed_ok, completed_fail}
use jobwatch.Db.{Uuid, ExecId, ExecStatus, Job, ExpectedRun, Execution, Db, find_job}
use jobwatch.Attach.{attach_slot}
use jobwatch.JobState.{StatusEvent, recompute_state, has_text, write_job}
use jobwatch.Ingest.{
  Kind, start, success, fail, ExecEvent, Env, seen_event, is_run_of, event_ts, record_event,
  upsert_start, update_finish, single_start, insert_single, store_tails,
}

-- SELECT ... FROM jobs WHERE id=:id AND org_id=:org
unfoldable pub own_job : Uuid → Uuid → Db → Option Job
own_job job_id org db = find_first (λ j. j.id == job_id && j.org_id == org) db.jobs

module _ (env : Env) (ev : ExecEvent) (exec_id : ExecId) (server_ts : ℕ) where
  abbrev ended_at : ℕ
  ended_at = event_ts ev exec_id server_ts

  -- The branch of a start.
  unfoldable pub on_start : Db → Db
  unfolding upsert_start event_ts
  on_start db =
      (attach_slot ev.org_id ev.job_id ended_at exec_id ExecStatus.running env.now
        (upsert_start ev exec_id server_ts db)).1

  -- What the branch of a finish writes to executions, with the start that it settled on.
  unfoldable pub write_finish : ExecStatus → Option Execution → Db → Option ℕ × Db
  unfolding update_finish insert_single single_start
  write_finish final none db =
      (some (single_start ev exec_id server_ts), insert_single ev exec_id server_ts final db)
  write_finish final (some row) db =
      (row.agent_ts_start, update_finish ev exec_id server_ts final row.agent_ts_start db)

  abbrev mark_run : ExecStatus → Job → Job
  mark_run final j = record j { last_run_at = some ended_at; last_status = some final }

  -- The branch of a finish.
  unfoldable pub on_finish : ExecStatus → Db → Db
  unfolding write_finish store_tails event_ts
  on_finish final db =
      let (begin, db') =
        write_finish final (find_first (is_run_of exec_id ev.org_id) db.executions) db in
      let attached =
        (attach_slot ev.org_id ev.job_id (coalesce begin ended_at) exec_id final env.now
          (store_tails env ev exec_id db')).1 in
      write_job ev.job_id (mark_run final) attached

abbrev pub is_pending : SlotState → Bool
is_pending SlotState.pending = true
is_pending _ = false

-- state='pending' AND scheduled_for > now()
abbrev pub is_upcoming : Uuid → ℕ → ExpectedRun → Bool
is_upcoming job_id now r = r.job_id == job_id && (is_pending r.state && ltb now r.scheduled_for)

abbrev pub show_next : Option ℕ → Job → Job
show_next next j = record j { next_expected_at = next; late_marked_at = none }

-- The display cache of the next slot, for a job with a schedule.
unfoldable pub refresh_next : Uuid → ℕ → Job → Db → Db
refresh_next job_id now job db =
    let next =
      minimum (map (λ r. r.scheduled_for) (keep_if (is_upcoming job_id now) db.expected_runs)) in
    if has_text job.schedule_expr then write_job job_id (show_next next) db else db

abbrev pub set_status : JobStatus → ℕ → Job → Job
set_status new now j = record j { status = new; updated_at = now }

-- The payload: the four-state is read back from the job's row.
abbrev pub payload_of : ExecEvent → ExecId → JobStatus → JobStatus → Option Job → StatusEvent
payload_of ev exec_id prev new none = record {
  org_id = ev.org_id;
  job_id = ev.job_id;
  execution_id = some exec_id;
  prev_status = prev;
  new_status = new;
  prev_state = none;
  new_state = none;
  unknown_reason = none;
  consecutive_failures = 0;
}
payload_of ev exec_id prev new (some jb) = record {
  org_id = ev.org_id;
  job_id = ev.job_id;
  execution_id = some exec_id;
  prev_status = prev;
  new_status = new;
  prev_state = none;
  new_state = some jb.job_state;
  unknown_reason = jb.unknown_reason;
  consecutive_failures = jb.consecutive_failures;
}

-- The part of `process` behind the branches, which both share.
unfoldable pub conclude : Env → ExecEvent → ExecId → Job → JobStatus → Db → Option StatusEvent × Db
unfolding refresh_next
conclude env ev exec_id job new db =
    let shown =
      write_job ev.job_id (set_status new env.now) (refresh_next ev.job_id env.now job db) in
    let stored = (recompute_state ev.job_id ev.org_id env.now shown).1 in
    (some (payload_of ev exec_id job.status new (find_job ev.job_id stored)), stored)

-- The three kinds of event, for a job that was found.
unfoldable pub apply_event :
    Env → ExecEvent → ExecId → ℕ → Kind → Job → Db → Option StatusEvent × Db
unfolding on_start on_finish conclude
apply_event env ev exec_id server_ts start job db =
    conclude env ev exec_id job (transition job.status started)
      (on_start env ev exec_id server_ts db)
apply_event env ev exec_id server_ts success job db =
    conclude env ev exec_id job (transition job.status completed_ok)
      (on_finish env ev exec_id server_ts ExecStatus.success db)
apply_event env ev exec_id server_ts fail job db =
    conclude env ev exec_id job (transition job.status completed_fail)
      (on_finish env ev exec_id server_ts ExecStatus.failed db)

abbrev pub apply_found : Env → ExecEvent → ExecId → ℕ → Option Job → Db → Option StatusEvent × Db
apply_found env ev exec_id server_ts none db = (none, db)
apply_found env ev exec_id server_ts (some job) db =
    apply_event env ev exec_id server_ts ev.kind job db

-- `process` once the execution's identifier and the server's time are settled.
unfoldable pub process_as : Env → ExecEvent → ExecId → ℕ → Db → Option StatusEvent × Db
unfolding apply_event own_job seen_event record_event
process_as env ev exec_id server_ts db =
    let recorded = record_event ev exec_id server_ts db in
    if seen_event exec_id ev.sequence db
    then (none, db)
    else apply_found env ev exec_id server_ts (own_job ev.job_id ev.org_id recorded) recorded

unfoldable pub process : Env → ExecEvent → Db → Option StatusEvent × Db
unfolding process_as
process env ev db =
    process_as env ev (coalesce ev.execution_id env.new_id) (coalesce ev.server_ts env.now) db

-- workers/exec_processor.py: only a change of status goes out on jobstatus.*
abbrev pub changed_only : Option StatusEvent → Option StatusEvent
changed_only none = none
changed_only (some res) = if eq_status res.prev_status res.new_status then none else some res

unfoldable pub handle_one : Env → ExecEvent → Db → Option StatusEvent × Db
unfolding process
handle_one env ev db = let (res, db') = process env ev db in (changed_only res, db')
