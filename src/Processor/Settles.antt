-- ===== src/Processor/Settles.antt =====
-- A finish event in processor.py settles a slot that its run belongs to.
use jobwatch.Prelude.{
  ℕ, ◌≡◌, refl, sym, ap, ◌∙◌, subst, true, false, Option, none, some, List, [], ◌∷◌, arith, ◌+◌,
  ◌≤◌, ◌&&◌, ==_iff, and-true, inl, inr, keep_if, keep_if-Mem, Mem-keep_if, least, least-Mem,
  least-none, Option-cases, coalesce, ◌==◌, find_first, Mem, update_where-Mem, update_where,
  update_if,
}
use jobwatch.Db.{Uuid, ExecId, ExecStatus, Job, Execution, ExpectedRun, Db, Stream, stdout, stderr}
use jobwatch.Status.{SlotState}
use jobwatch.Schedule.{nearer}
use jobwatch.Attach.{
  is_open, can_attach, holds_start, attach_slot, attach_to, attached_state, slot_for_start,
  bind_run,
}
use jobwatch.Attach.Choice.{slot_for_start-Mem}
use jobwatch.Ingest.{
  ExecEvent, Env, Kind, success, fail, seen_event, record_event, event_ts, is_run_of, single_start,
  store_tails, store_tail,
}
use jobwatch.Processor.{process_as, apply_event, own_job, on_finish, write_finish}
use jobwatch.Processor.Frame.{conclude-SameRuns, process_as-apply}

-- The message of a finish and the status that it stores.
pub data Finishes : Kind → ExecStatus → Type 0 where
  succeeds : Finishes success ExecStatus.success
  fails : Finishes fail ExecStatus.failed

apply_finish-runs :
    (env : Env) (ev : ExecEvent) (id : ExecId) (server_ts : ℕ) {kind : Kind} {final : ExecStatus}
    (job : Job) (db : Db)
    → Finishes kind final
    → ((apply_event env ev id server_ts kind job db).1.expected_runs
        ≡ (on_finish env ev id server_ts final db).expected_runs)
      × ((apply_event env ev id server_ts kind job db).1.executions
          ≡ (on_finish env ev id server_ts final db).executions)
unfolding apply_event
apply_finish-runs env ev id server_ts job db succeeds =
    let frame =
      conclude-SameRuns env ev id job _ (on_finish env ev id server_ts ExecStatus.success db) in
    (frame.expected_runs, frame.executions)
apply_finish-runs env ev id server_ts job db fails =
    let frame =
      conclude-SameRuns env ev id job _ (on_finish env ev id server_ts ExecStatus.failed db) in
    (frame.expected_runs, frame.executions)

-- Neither the executions nor the logs that a finish writes touch the slots.
write_finish-slots :
    (env : Env) (ev : ExecEvent) (id : ExecId) (server_ts : ℕ) (final : ExecStatus)
    (row : Option Execution) (db : Db)
    → (write_finish env ev id server_ts final row db).1.expected_runs ≡ db.expected_runs
unfolding write_finish
write_finish-slots env ev id server_ts final none db = refl
write_finish-slots env ev id server_ts final (some row) db = refl

store_tail-runs :
    (env : Env) (org : Uuid) (id : ExecId) (s : Stream) (text : Option (List ℕ)) (db : Db)
    → ((store_tail env org id s text db).expected_runs ≡ db.expected_runs)
      × ((store_tail env org id s text db).executions ≡ db.executions)
unfolding store_tail
store_tail-runs env org id s none db = (refl, refl)
store_tail-runs env org id s (some []) db = (refl, refl)
store_tail-runs env org id s (some (c ∷ cs)) db = (refl, refl)

store_tails-runs :
    (env : Env) (ev : ExecEvent) (id : ExecId) (db : Db)
    → ((store_tails env ev id db).expected_runs ≡ db.expected_runs)
      × ((store_tails env ev id db).executions ≡ db.executions)
unfolding store_tails
store_tails-runs env ev id db =
    let out = store_tail env ev.org_id id stdout ev.stdout_tail db in
    let first = store_tail-runs env ev.org_id id stdout ev.stdout_tail db in
    let second = store_tail-runs env ev.org_id id stderr ev.stderr_tail out in
    (second.0 ∙ first.0, second.1 ∙ first.1)

code_eq : (n : ℕ) → (n == n) ≡ true
code_eq n = ground arith

slot_for_start-eq :
    (org job_id ts : ℕ) (a b : Db)
    → a.expected_runs ≡ b.expected_runs
    → slot_for_start org job_id ts a ≡ slot_for_start org job_id ts b
unfolding slot_for_start
slot_for_start-eq org job_id ts a b h =
    ap (λ l. slot_for_start org job_id ts (record a { expected_runs = l })) h

attach_slot-bound :
    (org job_id ts : ℕ) (id : ExecId) (status : ExecStatus) (now : ℕ) (db : Db) (row : ExpectedRun)
    → slot_for_start org job_id ts db ≡ some row
    → Mem
        (bind_run id (attached_state status) now row)
        (attach_slot org job_id ts id status now db).1.expected_runs
unfolding attach_slot
attach_slot-bound org job_id ts id status now db row h =
    subst
      (λ o.
        Mem (bind_run id (attached_state status) now row)
          (attach_to org id (attached_state status) now db o).1.expected_runs)
      (sym h) (rw (code_eq row.id) at there)
  where
    there : Mem (update_if (λ r. r.id == row.id) (bind_run id (attached_state status) now) row) (
        update_where
          (λ r. r.id == row.id)
          (bind_run id (attached_state status) now)
          db.expected_runs)
    there =
        update_where-Mem (λ r. r.id == row.id) (bind_run id (attached_state status) now)
          (slot_for_start-Mem org job_id ts db row h)

-- The start of the run that an event finishes: that of the known execution, if it has one, or else the
-- instant of the event less the reported duration.
unfoldable pub run_start : ExecEvent → ExecId → ℕ → Option Execution → ℕ
run_start ev id server_ts none = single_start ev id server_ts
run_start ev id server_ts (some row) = coalesce row.agent_ts_start (event_ts ev id server_ts)

-- The known execution.
unfoldable pub known : ExecEvent → ExecId → Db → Option Execution
known ev id db = find_first (is_run_of id ev.org_id) db.executions

write_finish-start :
    (env : Env) (ev : ExecEvent) (id : ExecId) (server_ts : ℕ) (final : ExecStatus)
    (o : Option Execution) (db : Db)
    → coalesce (write_finish env ev id server_ts final o db).0 (event_ts ev id server_ts)
      ≡ run_start ev id server_ts o
unfolding write_finish run_start
write_finish-start env ev id server_ts final none db = refl
write_finish-start env ev id server_ts final (some row) db = refl

on_finish-bound :
    (env : Env) (ev : ExecEvent) (id : ExecId) (server_ts : ℕ) (final : ExecStatus) (db : Db)
    (row : ExpectedRun)
    → slot_for_start ev.org_id ev.job_id (run_start ev id server_ts (known ev id db)) db ≡ some row
    → Mem
        (bind_run id (attached_state final) env.now row)
        (on_finish env ev id server_ts final db).expected_runs
unfolding on_finish known
on_finish-bound env ev id server_ts final db row h =
    let o = find_first (is_run_of id ev.org_id) db.executions in
    let written = (write_finish env ev id server_ts final o db).1 in
    let logged = store_tails env ev id written in
    let slots : logged.expected_runs ≡ db.expected_runs =
      (store_tails-runs env ev id written).0 ∙ write_finish-slots env ev id server_ts final o db in
    attach_slot-bound ev.org_id ev.job_id _ id final env.now logged row (
      slot_for_start-eq ev.org_id ev.job_id _ logged db slots
      ∙ ap (λ ts. slot_for_start ev.org_id ev.job_id ts db)
          (write_finish-start env ev id server_ts final o db)
      ∙ h)

-- A slot that nothing has settled.
pub data IsUnsettled : SlotState → Type 0 where
  is_pending : IsUnsettled SlotState.pending
  still_late : IsUnsettled SlotState.late
  still_running : IsUnsettled SlotState.running

-- The state that a finish settles a slot in.
pub data Ends : Kind → SlotState → Type 0 where
  as_succeeded : Ends success SlotState.succeeded
  as_failed : Ends fail SlotState.failed

-- An unsettled slot of the job, from a minute and a half before which to whose deadline the run began.
pub record CanHold (ev : ExecEvent) (began : ℕ) (r : ExpectedRun) : Type 0 where
  pub job_id : r.job_id ≡ ev.job_id
  pub org_id : r.org_id ≡ ev.org_id
  pub unsettled : IsUnsettled r.state
  pub not_early : r.scheduled_for ≤ began + 90000000
  pub in_time : began ≤ r.deadline

-- The slot afterwards.
pub record IsSettledBy (id : ExecId) (state : SlotState) (now : ℕ) (r after : ExpectedRun)
    : Type 0 where
  pub row : (after.id ≡ r.id) × (after.job_id ≡ r.job_id) × (after.scheduled_for ≡ r.scheduled_for)
  pub state_now : after.state ≡ state
  pub execution_id : after.execution_id ≡ some id
  pub times : (after.matched_at ≡ some now) × (after.settled_at ≡ some now)

unsettled_open : (s : SlotState) → IsUnsettled s → is_open s ≡ true
unsettled_open s is_pending = refl
unsettled_open s still_late = refl
unsettled_open s still_running = refl

open_unsettled : (s : SlotState) → is_open s ≡ true → IsUnsettled s
open_unsettled SlotState.pending h = is_pending
open_unsettled SlotState.late h = still_late
open_unsettled SlotState.running h = still_running
open_unsettled SlotState.succeeded h = cc
open_unsettled SlotState.failed h = cc
open_unsettled SlotState.missed h = cc
open_unsettled SlotState.skipped h = cc

can_attach-CanHold :
    (ev : ExecEvent) (began : ℕ) (r : ExpectedRun)
    → CanHold ev began r
    → can_attach ev.org_id ev.job_id began r ≡ true
unfolding can_attach
can_attach-CanHold ev began r h =
    let job = (==_iff r.job_id ev.job_id).1 h.job_id in
    let org = (==_iff r.org_id ev.org_id).1 h.org_id in
    let early = h.not_early in
    let late = h.in_time in
    let held : holds_start began r ≡ true = ground arith in
    rw (job, org, unsettled_open r.state h.unsettled, held) refl

CanHold-can_attach :
    (ev : ExecEvent) (began : ℕ) (r : ExpectedRun)
    → can_attach ev.org_id ev.job_id began r ≡ true
    → CanHold ev began r
unfolding can_attach
CanHold-can_attach ev began r h =
    let (own, more) =
      and-true (r.job_id == ev.job_id && r.org_id == ev.org_id)
        (is_open r.state && holds_start began r) h in
    let (job, org) = and-true (r.job_id == ev.job_id) (r.org_id == ev.org_id) own in
    let (still, held) = and-true (is_open r.state) (holds_start began r) more in
    record {
      job_id = (==_iff r.job_id ev.job_id).0 job;
      org_id = (==_iff r.org_id ev.org_id).0 org;
      unsettled = open_unsettled r.state still;
      not_early = ground arith;
      in_time = ground arith;
    }

-- Where a slot can hold the run, one is chosen.
chosen :
    (ev : ExecEvent) (began : ℕ) (db : Db) (s : ExpectedRun)
    → Mem s db.expected_runs
    → CanHold ev began s
    → (row : ExpectedRun) × (slot_for_start ev.org_id ev.job_id began db ≡ some row)
      × Mem row db.expected_runs
      × CanHold ev began row
unfolding slot_for_start
chosen ev began db s m can =
    let rows = keep_if (can_attach ev.org_id ev.job_id began) db.expected_runs in
    let there : Mem s rows =
      keep_if-Mem (can_attach ev.org_id ev.job_id began) db.expected_runs m
        (can_attach-CanHold ev began s can) in
    elim (Option-cases (least (λ a b. nearer began a.scheduled_for b.scheduled_for) rows)) [
      | inl missing ↦
          let nothing = subst (Mem s) (least-none _ rows missing) there in elim nothing [ ]
      | inr (row, e) ↦
          let (listed, test) =
            Mem-keep_if (can_attach ev.org_id ev.job_id began) db.expected_runs
              (least-Mem _ rows e) in
          (row, e, listed, CanHold-can_attach ev began row test)
    ]

finish_binds :
    (env : Env) (ev : ExecEvent) (id : ExecId) (server_ts : ℕ) (kind : Kind) (final : ExecStatus)
    (job : Job) (db : Db) (row : ExpectedRun)
    → seen_event id ev.sequence db ≡ false
    → own_job ev.job_id ev.org_id db ≡ some job
    → ev.kind ≡ kind
    → Finishes kind final
    → slot_for_start ev.org_id ev.job_id (run_start ev id server_ts (known ev id db)) db ≡ some row
    → Mem
        (bind_run id (attached_state final) env.now row)
        (process_as env ev id server_ts db).1.expected_runs
finish_binds env ev id server_ts kind final job db row new found e fin h =
    subst (λ r. Mem (bind_run id (attached_state final) env.now row) r.1.expected_runs)
      (sym (process_as-apply env ev id server_ts kind job db new found e))
      (subst (Mem (bind_run id (attached_state final) env.now row))
        (sym (apply_finish-runs env ev id server_ts job recorded fin).0)
        (on_finish-bound env ev id server_ts final recorded row (
          unfold known record_event in
          slot_for_start-eq ev.org_id ev.job_id _ recorded db refl ∙ h)))
  where
    recorded : Db
    recorded = record_event ev id server_ts db

bound-IsSettledBy :
    (id : ExecId) (now : ℕ) (row : ExpectedRun) {kind : Kind} {state : SlotState}
    → Ends kind state
    → (final : ExecStatus) × Finishes kind final
      × IsSettledBy id state now row (bind_run id (attached_state final) now row)
bound-IsSettledBy id now row as_succeeded = (
  ExecStatus.success,
  succeeds,
  record { row = (refl, refl, refl); state_now = refl; execution_id = refl; times = (refl, refl) },
)
bound-IsSettledBy id now row as_failed = (
  ExecStatus.failed,
  fails,
  record { row = (refl, refl, refl); state_now = refl; execution_id = refl; times = (refl, refl) },
)

-- A new finish event of a job whose run began when some unsettled slot of the job can hold it settles one: a slot that
-- can hold the run is afterwards bound to the execution, succeeded or failed as the event says, and matched and settled
-- now.
pub finish_settles :
    (env : Env) (ev : ExecEvent) (id : ExecId) (server_ts : ℕ) (kind : Kind) (state : SlotState)
    (job : Job) (db : Db) (s : ExpectedRun)
    → seen_event id ev.sequence db ≡ false
    → own_job ev.job_id ev.org_id db ≡ some job
    → ev.kind ≡ kind
    → Ends kind state
    → Mem s db.expected_runs
    → CanHold ev (run_start ev id server_ts (known ev id db)) s
    → (row after : ExpectedRun) × Mem row db.expected_runs
      × CanHold ev (run_start ev id server_ts (known ev id db)) row
      × Mem after (process_as env ev id server_ts db).1.expected_runs
      × IsSettledBy id state env.now row after
finish_settles env ev id server_ts kind state job db s new found e settles m can =
    let (row, pick, listed, holds) =
      chosen ev (run_start ev id server_ts (known ev id db)) db s m can in
    let (final, fin, done) = bound-IsSettledBy id env.now row settles in
    (
      row,
      bind_run id (attached_state final) env.now row,
      listed,
      holds,
      finish_binds env ev id server_ts kind final job db row new found e fin pick,
      done,
    )
