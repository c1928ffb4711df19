-- ===== src/Processor/Frame.antt =====
-- What each part of `process` in processor.py leaves alone.
use jobwatch.Prelude.{
  ℕ, ◌≡◌, inl, inr, refl, ap, ◌∙◌, false, Option, none, some, List, [], ◌∷◌, Bool-cases, find_first,
}
use jobwatch.Status.{JobStatus}
use jobwatch.Db.{
  Uuid, ExecId, ExecStatus, Job, ExpectedRun, Execution, Db, find_job, Stream, stdout, stderr,
}
use jobwatch.Attach.{attach_slot, attach_to, slot_for_start}
use jobwatch.JobState.{
  Computed, recompute_state, recompute_row, recompute_found, compute, write_job, unchanged,
  has_text,
}
use jobwatch.Ingest.{
  ExecEvent, Env, upsert_start, store_tail, Kind, start, success, fail, is_run_of, seen_event,
  record_event,
}
use jobwatch.Processor.{
  on_start, on_finish, write_finish, refresh_next, conclude, apply_event, apply_found, process_as,
  own_job,
}

-- A step that leaves the events as they are.
abbrev pub SameEvents : Db → Db → Type 0
SameEvents a b = b.events ≡ a.events

-- A step that leaves the tables of slots and executions as they are, and the events too.
pub record SameRuns (a b : Db) : Type 0 where
  pub expected_runs : b.expected_runs ≡ a.expected_runs
  pub executions : b.executions ≡ a.executions
  pub events : b.events ≡ a.events
  pub logs : b.logs ≡ a.logs

SameRuns-trans : {a b c : Db} → SameRuns a b → SameRuns b c → SameRuns a c
SameRuns-trans p q = record {
  expected_runs = q.expected_runs ∙ p.expected_runs;
  executions = q.executions ∙ p.executions;
  events = q.events ∙ p.events;
  logs = q.logs ∙ p.logs;
}

write_job-SameRuns : (id : Uuid) (f : Job → Job) (db : Db) → SameRuns db (write_job id f db)
write_job-SameRuns id f db = record {
  expected_runs = refl;
  executions = refl;
  events = refl;
  logs = refl;
}

row-SameRuns :
    (id org now : ℕ) (db : Db) (j : Job) (c : Computed)
    → SameRuns db (recompute_row id org now db j c).1
unfolding recompute_row
row-SameRuns id org now db j c = elim (Bool-cases (unchanged c j)) [
  | inl e ↦ rw e (write_job-SameRuns id _ db)
  | inr e ↦ rw e (write_job-SameRuns id _ db)
]

found-SameRuns :
    (id org now : ℕ) (db : Db) (o : Option Job) → SameRuns db (recompute_found id org now db o).1
found-SameRuns id org now db none = record {
  expected_runs = refl;
  executions = refl;
  events = refl;
  logs = refl;
}
found-SameRuns id org now db (some j) = row-SameRuns id org now db j (compute db j now)

-- Only the job's row changes when its state is recomputed.
pub recompute_state-SameRuns :
    (id org now : ℕ) (db : Db) → SameRuns db (recompute_state id org now db).1
unfolding recompute_state
recompute_state-SameRuns id org now db = found-SameRuns id org now db (find_job id db)

refresh_next-SameRuns :
    (id now : ℕ) (job : Job) (db : Db) → SameRuns db (refresh_next id now job db)
unfolding refresh_next
refresh_next-SameRuns id now job db = elim (Bool-cases (has_text job.schedule_expr)) [
  | inl e ↦ rw e (write_job-SameRuns id _ db)
  | inr e ↦ rw e (record { expected_runs = refl; executions = refl; events = refl; logs = refl })
]

pub conclude-SameRuns :
    (env : Env) (ev : ExecEvent) (exec_id : ExecId) (job : Job) (new : JobStatus) (db : Db)
    → SameRuns db (conclude env ev exec_id job new db).1
unfolding conclude
conclude-SameRuns env ev exec_id job new db =
    SameRuns-trans (refresh_next-SameRuns ev.job_id env.now job db) (
      SameRuns-trans (write_job-SameRuns ev.job_id _ _)
        (recompute_state-SameRuns ev.job_id ev.org_id env.now _))

attach_to-events :
    (org : Uuid) (exec_id : ExecId) (new : _) (now : ℕ) (db : Db) (o : Option ExpectedRun)
    → SameEvents db (attach_to org exec_id new now db o).1
attach_to-events org exec_id new now db none = refl
attach_to-events org exec_id new now db (some row) = refl

pub attach_slot-events :
    (org job_id ts : ℕ) (exec_id : ExecId) (status : ExecStatus) (now : ℕ) (db : Db)
    → SameEvents db (attach_slot org job_id ts exec_id status now db).1
unfolding attach_slot
attach_slot-events org job_id ts exec_id status now db =
    attach_to-events org exec_id _ now db (slot_for_start org job_id ts db)

store_tail-events :
    (env : Env) (org : Uuid) (exec_id : ExecId) (s : Stream) (tail : Option (List ℕ)) (db : Db)
    → SameEvents db (store_tail env org exec_id s tail db)
unfolding store_tail
store_tail-events env org exec_id s none db = refl
store_tail-events env org exec_id s (some []) db = refl
store_tail-events env org exec_id s (some (c ∷ cs)) db = refl

write_finish-events :
    (env : Env) (ev : ExecEvent) (exec_id : ExecId) (server_ts : ℕ) (final : ExecStatus)
    (row : Option Execution) (db : Db)
    → SameEvents db (write_finish env ev exec_id server_ts final row db).1
unfolding write_finish
write_finish-events env ev exec_id server_ts final none db = refl
write_finish-events env ev exec_id server_ts final (some row) db = refl

pub on_start-events :
    (env : Env) (ev : ExecEvent) (exec_id : ExecId) (server_ts : ℕ) (db : Db)
    → SameEvents db (on_start env ev exec_id server_ts db)
unfolding on_start
on_start-events env ev exec_id server_ts db =
    attach_slot-events ev.org_id ev.job_id _ exec_id ExecStatus.running env.now
      (upsert_start ev exec_id server_ts db)

pub on_finish-events :
    (env : Env) (ev : ExecEvent) (exec_id : ExecId) (server_ts : ℕ) (final : ExecStatus) (db : Db)
    → SameEvents db (on_finish env ev exec_id server_ts final db)
unfolding on_finish
on_finish-events env ev exec_id server_ts final db =
    let row = find_first (is_run_of exec_id ev.org_id) db.executions in
    let written = (write_finish env ev exec_id server_ts final row db).1 in
    let out = store_tail env ev.org_id exec_id stdout ev.stdout_tail written in
    attach_slot-events ev.org_id ev.job_id _ exec_id final env.now
      (store_tail env ev.org_id exec_id stderr ev.stderr_tail out)
    ∙ store_tail-events env ev.org_id exec_id stderr ev.stderr_tail out
    ∙ store_tail-events env ev.org_id exec_id stdout ev.stdout_tail written
    ∙ write_finish-events env ev exec_id server_ts final row db

-- Whatever the kind, the events are those that were there.
pub apply_event-events :
    (env : Env) (ev : ExecEvent) (exec_id : ExecId) (server_ts : ℕ) (kind : Kind) (job : Job)
    (db : Db)
    → SameEvents db (apply_event env ev exec_id server_ts kind job db).1
unfolding apply_event
apply_event-events env ev exec_id server_ts start job db =
    (conclude-SameRuns env ev exec_id job _ _).events ∙ on_start-events env ev exec_id server_ts db
apply_event-events env ev exec_id server_ts success job db =
    (conclude-SameRuns env ev exec_id job _ _).events
    ∙ on_finish-events env ev exec_id server_ts ExecStatus.success db
apply_event-events env ev exec_id server_ts fail job db =
    (conclude-SameRuns env ev exec_id job _ _).events
    ∙ on_finish-events env ev exec_id server_ts ExecStatus.failed db

pub apply_found-events :
    (env : Env) (ev : ExecEvent) (exec_id : ExecId) (server_ts : ℕ) (o : Option Job) (db : Db)
    → SameEvents db (apply_found env ev exec_id server_ts o db).1
apply_found-events env ev exec_id server_ts none db = refl
apply_found-events env ev exec_id server_ts (some job) db =
    apply_event-events env ev exec_id server_ts ev.kind job db

-- A new event of a job that is found is applied to the tables with the event recorded.
pub process_as-apply :
    (env : Env) (ev : ExecEvent) (id : ExecId) (server_ts : ℕ) (kind : Kind) (job : Job) (db : Db)
    → seen_event id ev.sequence db ≡ false
    → own_job ev.job_id ev.org_id db ≡ some job
    → ev.kind ≡ kind
    → process_as env ev id server_ts db
      ≡ apply_event env ev id server_ts kind job (record_event ev id server_ts db)
process_as-apply env ev id server_ts kind job db new found e =
    open_it
    ∙ ap (λ o. apply_found env ev id server_ts o recorded) (same_job ∙ found)
    ∙ ap (λ k. apply_event env ev id server_ts k job recorded) e
  where
    recorded : Db
    recorded = record_event ev id server_ts db

    open_it :
        process_as env ev id server_ts db
        ≡ apply_found env ev id server_ts (own_job ev.job_id ev.org_id recorded) recorded
    open_it = unfold process_as in rw new refl

    same_job : own_job ev.job_id ev.org_id recorded ≡ own_job ev.job_id ev.org_id db
    same_job = unfold own_job record_event in refl
