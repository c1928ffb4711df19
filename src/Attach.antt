-- ===== src/Attach.antt =====
-- `attach_slot` of cronsentinel/processor.py: an execution is bound to the open slot that its start
-- belongs to.
pub mod Choice
use jobwatch.Prelude.{
  ℕ, ◌+◌, ◌-◌, Bool, true, false, ◌&&◌, Option, none, some, List, ◌==◌, leb, if◌then◌else◌, keep_if,
  least, update_where,
}
use jobwatch.Status.{SlotState}
use jobwatch.Schedule.{seconds, nearer}
use jobwatch.Db.{Uuid, ExecId, ExecStatus, ExpectedRun, Execution, Db, eq_exec}

-- state IN ('pending','late','running')
abbrev pub is_open : SlotState → Bool
is_open SlotState.pending = true
is_open SlotState.late = true
is_open SlotState.running = true
is_open _ = false

-- :ts BETWEEN scheduled_for - interval '90 seconds' AND deadline
abbrev pub holds_start : ℕ → ExpectedRun → Bool
holds_start ts r = leb (r.scheduled_for - seconds 90) ts && leb ts r.deadline

-- The WHERE clause of the SELECT.
unfoldable pub can_attach : Uuid → Uuid → ℕ → ExpectedRun → Bool
can_attach org job_id ts r =
    (r.job_id == job_id && r.org_id == org) && (is_open r.state && holds_start ts r)

-- ORDER BY abs(:ts - scheduled_for), scheduled_for LIMIT 1
unfoldable pub slot_for_start : Uuid → Uuid → ℕ → Db → Option ExpectedRun
unfolding can_attach least
slot_for_start org job_id ts db =
    least (λ a b. nearer ts a.scheduled_for b.scheduled_for)
      (keep_if (can_attach org job_id ts) db.expected_runs)

-- The dictionary lookup with its default.
abbrev pub attached_state : ExecStatus → SlotState
attached_state ExecStatus.running = SlotState.running
attached_state ExecStatus.success = SlotState.succeeded
attached_state ExecStatus.failed = SlotState.failed
attached_state ExecStatus.timeout = SlotState.failed
attached_state _ = SlotState.running

-- :st IN ('succeeded','failed')
abbrev pub is_outcome : SlotState → Bool
is_outcome SlotState.succeeded = true
is_outcome SlotState.failed = true
is_outcome _ = false

abbrev pub bind_run : ExecId → SlotState → ℕ → ExpectedRun → ExpectedRun
bind_run exec_id new now r = record r {
  state = new;
  execution_id = some exec_id;
  matched_at = some now;
  settled_at = if is_outcome new then some now else r.settled_at;
}

abbrev pub bind_execution : ℕ → Execution → Execution
bind_execution run_id e = record e { expected_run_id = some run_id }

abbrev pub attach_to : Uuid → ExecId → SlotState → ℕ → Db → Option ExpectedRun → Option ℕ × Db
attach_to org exec_id new now db none = (none, db)
attach_to org exec_id new now db (some row) = (
  some row.id,
  record db {
    expected_runs = update_where (λ r. r.id == row.id) (bind_run exec_id new now) db.expected_runs;
    executions =
        update_where (λ e. eq_exec e.id exec_id && e.org_id == org) (bind_execution row.id)
          db.executions;
  },
)

unfoldable pub attach_slot : Uuid → Uuid → ℕ → ExecId → ExecStatus → ℕ → Db → Option ℕ × Db
unfolding slot_for_start
attach_slot org job_id started_at exec_id status now db =
    attach_to org exec_id (attached_state status) now db (slot_for_start org job_id started_at db)
