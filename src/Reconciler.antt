-- ===== src/Reconciler.antt =====
-- cronsentinel/workers/reconciler.py: each tick settles the slots that are due, and recomputes the
-- state of the jobs that it touched.
pub mod Rows
pub mod Settled
pub mod Outage
pub mod Missed
pub mod Pass
use jobwatch.Prelude.{
  ℕ, ◌+◌, ◌*◌, ◌-◌, ◌/◌, Bool, true, false, ◌&&◌, ◌||◌, not, Option, none, some, List, [], ◌∷◌,
  ◌++◌, map, ◌==◌, ltb, leb, if◌then◌else◌, is_some, keep_if, any_of, elem, find_first,
  update_where, update_if,
}
use jobwatch.Prelude.Int.{ℤ, negate}
use jobwatch.Status.{SlotState, JobState, UnknownReason}
use jobwatch.Schedule.{seconds}
use jobwatch.Db.{
  Uuid, ExecId, missed_id, ExecStatus, Job, Agent, ExpectedRun, Execution, Window, Scope, Db,
  find_job, agent_of, eq_exec,
}
use jobwatch.JobState.{StatusEvent, recompute_state, is_running}

-- state IN ('pending','late') AND execution_id IS NULL
abbrev pub is_waiting : SlotState → Bool
is_waiting SlotState.pending = true
is_waiting SlotState.late = true
is_waiting _ = false

abbrev pub is_pending : SlotState → Bool
is_pending SlotState.pending = true
is_pending _ = false

abbrev pub is_running_slot : SlotState → Bool
is_running_slot SlotState.running = true
is_running_slot _ = false

abbrev pub unbound : ExpectedRun → Bool
unbound r = not (is_some r.execution_id)

-- A list under a key of the scope, and `?` on it; an absent key holds nothing.
abbrev pub key_holds : Option (List ℕ) → ℕ → Bool
key_holds none x = false
key_holds (some xs) x = elem x xs

abbrev pub opt_key_holds : Option (List ℕ) → Option ℕ → Bool
opt_key_holds keys none = false
opt_key_holds keys (some x) = key_holds keys x

abbrev pub key_meets : Option (List ℕ) → List ℕ → Bool
key_meets none ys = false
key_meets (some xs) ys = any_of (λ t. elem t ys) xs

-- scope = '{}'
abbrev pub is_empty_scope : Scope → Bool
is_empty_scope sc =
    not (is_some sc.job_ids) && (not (is_some sc.tags) && not (is_some sc.environment_ids))

abbrev pub covers : Job → ExpectedRun → Window → Bool
covers j r m =
    (m.org_id == r.org_id && (leb m.starts_at r.scheduled_for && leb r.scheduled_for m.ends_at))
    && (is_empty_scope m.scope
        || (key_holds m.scope.job_ids r.job_id
            || (key_meets m.scope.tags j.tags
                || opt_key_holds m.scope.environment_ids j.environment_id)))

-- The joined job is paused, or a window of the slot's organisation covers the slot.
abbrev pub excused_by : List Window → ExpectedRun → Option Job → Bool
excused_by windows r none = false
excused_by windows r (some j) = j.paused || any_of (covers j r) windows

unfoldable pub excused : Db → ExpectedRun → Bool
excused db r = excused_by db.windows r (find_job r.job_id db)

-- The WHERE clauses of the four statements.
unfoldable pub to_skip : Db → ℕ → ExpectedRun → Bool
to_skip db now r = (is_waiting r.state && ltb r.grace_until now) && (unbound r && excused db r)

unfoldable pub to_late : ℕ → ExpectedRun → Bool
to_late now r = (is_pending r.state && unbound r) && (ltb r.grace_until now && leb now r.deadline)

unfoldable pub to_miss : ℕ → ExpectedRun → Bool
to_miss now r = (is_waiting r.state && unbound r) && ltb r.deadline now

abbrev pub is_bound : Option ℕ → ℕ → Bool
is_bound none n = false
is_bound (some m) n = m == n

-- FROM executions e WHERE e.expected_run_id = er.id AND e.status='running'
abbrev pub runs_slot : ExpectedRun → Execution → Bool
runs_slot r e = is_bound e.expected_run_id r.id && is_running e.status

unfoldable pub to_time_out : Db → ℕ → ExpectedRun → Bool
to_time_out db now r =
    (is_running_slot r.state && ltb r.deadline now) && any_of (runs_slot r) db.executions

abbrev pub settle_as : SlotState → ℕ → ExpectedRun → ExpectedRun
settle_as new now r = record r { state = new; settled_at = some now }

abbrev pub mark_late : ExpectedRun → ExpectedRun
mark_late r = record r { state = SlotState.late }

-- RETURNING job_id, org_id, of the rows that were updated.
abbrev pub touched_by : (ExpectedRun → Bool) → Db → List (ℕ × ℕ)
touched_by p db = map (λ r. (r.job_id, r.org_id)) (keep_if p db.expected_runs)

unfoldable pub settle_maintenance : ℕ → Db → Db
unfolding to_skip excused
settle_maintenance now db = record db {
  expected_runs = update_where (to_skip db now) (settle_as SlotState.skipped now) db.expected_runs;
}

unfoldable pub mark_slots_late : ℕ → Db → Db
unfolding to_late
mark_slots_late now db = record db {
  expected_runs = update_where (to_late now) mark_late db.expected_runs;
}

-- CAST(EXTRACT(EPOCH FROM scheduled_for) AS bigint), which rounds; instants here count from another second,
-- which shifts all keys alike.
abbrev pub epoch : ℕ → ℕ
epoch t = (t + 500000) / 1000000

abbrev pub missed_row : ℕ → ExpectedRun → Execution
missed_row now r = record {
  id = missed_id r.job_id (epoch r.scheduled_for);
  org_id = r.org_id;
  job_id = r.job_id;
  agent_id = none;
  status = ExecStatus.missed;
  scheduled_ts = r.scheduled_for;
  agent_ts_start = none;
  agent_ts_end = none;
  server_received_ts = now;
  skew_ms = ℤ.pos 0;
  duration_ms = none;
  exit_code = none;
  host = none;
  sequence_max = 0;
  expected_run_id = some r.id;
  failure_reason = none;
}

-- INSERT ... ON CONFLICT DO NOTHING, by the primary key (id, scheduled_ts).
abbrev pub same_key : Execution → Execution → Bool
same_key a b = eq_exec a.id b.id && a.scheduled_ts == b.scheduled_ts

unfoldable pub insert_execution : Execution → List Execution → List Execution
insert_execution e es =
    let more = es ++ (e ∷ []) in if any_of (λ d. same_key d e) es then es else more

unfoldable pub insert_missed : ℕ → List ExpectedRun → List Execution → List Execution
unfolding insert_execution
insert_missed now [] es = es
insert_missed now (r ∷ rs) es = insert_missed now rs (insert_execution (missed_row now r) es)

unfoldable pub mark_missed : ℕ → Db → Db
unfolding to_miss insert_missed
mark_missed now db = record db {
  expected_runs = update_where (to_miss now) (settle_as SlotState.missed now) db.expected_runs;
  executions = insert_missed now (keep_if (to_miss now) db.expected_runs) db.executions;
}

-- EXTRACT(EPOCH FROM (now()-agent_ts_start))*1000, which rounds to a bigint.
abbrev pub elapsed_ms : ℕ → ℕ → ℤ
elapsed_ms now t =
    if leb t now then ℤ.pos ((now - t + 500) / 1000) else negate ((t - now + 500) / 1000)

-- The text 'exceeded expected runtime'.
abbrev pub exceeded_runtime : ℕ
exceeded_runtime = 1

abbrev pub time_out : ℕ → Execution → Execution
time_out now e = record e {
  status = ExecStatus.timeout;
  agent_ts_end = some now;
  duration_ms = elim e.agent_ts_start [ none ↦ none | some t ↦ some (elapsed_ms now t) ];
  failure_reason = elim e.failure_reason [ none ↦ some exceeded_runtime | some why ↦ some why ];
}

-- The loop over the returned rows: the joined execution of each slot, the first where there are several.
unfoldable pub time_out_runs :
    ℕ → List ExpectedRun → List Execution → List Execution → List Execution
time_out_runs now [] joined es = es
time_out_runs now (r ∷ rs) joined es =
    time_out_runs now rs joined (elim (find_first (runs_slot r) joined) [
      | none ↦ es
      | some e ↦ update_where (λ d. same_key d e) (time_out now) es
    ])

unfoldable pub mark_timeouts : ℕ → Db → Db
unfolding to_time_out time_out_runs
mark_timeouts now db = record db {
  expected_runs =
      update_where (to_time_out db now) (settle_as SlotState.failed now) db.expected_runs;
  executions =
      time_out_runs now (keep_if (to_time_out db now) db.expected_runs) db.executions db.executions;
}

-- The four statements of `settle`, in its order.
unfoldable pub settle_slots : ℕ → Db → Db
unfolding settle_maintenance mark_slots_late mark_missed mark_timeouts
settle_slots now db =
    mark_timeouts now (mark_missed now (mark_slots_late now (settle_maintenance now db)))
