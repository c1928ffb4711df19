-- ===== src/Processor/Wire.antt =====
-- What goes out on jobstatus.* from processor.py and workers/exec_processor.py.
use jobwatch.Prelude.{
  ℕ, ◌≡◌, inl, inr, refl, sym, ap, ◌∙◌, subst, Bool, true, false, Option, none, some,
  some-injective, arith, Bool-cases, ◌==◌,
}
use jobwatch.Status.{JobStatus, eq_status, status_code}
use jobwatch.Status.Machine.{Event, transition, started, completed_ok, completed_fail}
use jobwatch.Db.{ExecId, Job, Db}
use jobwatch.JobState.{StatusEvent}
use jobwatch.Ingest.{ExecEvent, Env, Kind, start, success, fail, seen_event, record_event}
use jobwatch.Processor.{
  process, process_as, apply_found, apply_event, own_job, payload_of, conclude, handle_one,
  changed_only,
}

-- The event of the status machine that a kind of message stands for.
unfoldable pub event_of : Kind → Event
event_of start = started
event_of success = completed_ok
event_of fail = completed_fail

payload_statuses :
    (ev : ExecEvent) (id : ExecId) (prev new : JobStatus) (o : Option Job)
    → ((payload_of ev id prev new o).prev_status ≡ prev)
      × ((payload_of ev id prev new o).new_status ≡ new)
payload_statuses ev id prev new none = (refl, refl)
payload_statuses ev id prev new (some jb) = (refl, refl)

-- The announced statuses are a step of the status machine from a stored status.
record IsStep (kind : Kind) (job : Job) (res : StatusEvent) : Type 0 where
  prev : res.prev_status ≡ job.status
  new : res.new_status ≡ transition job.status (event_of kind)

conclude-IsStep :
    (env : Env) (ev : ExecEvent) (id : ExecId) (job : Job) (new : JobStatus) (db : Db)
    (res : StatusEvent)
    → (conclude env ev id job new db).0 ≡ some res
    → (res.prev_status ≡ job.status) × (res.new_status ≡ new)
unfolding conclude
conclude-IsStep env ev id job new db res h =
    subst (λ r. (r.prev_status ≡ job.status) × (r.new_status ≡ new)) (some-injective _ _ h)
      (payload_statuses ev id job.status new _)

apply_event-IsStep :
    (env : Env) (ev : ExecEvent) (id : ExecId) (server_ts : ℕ) (kind : Kind) (job : Job) (db : Db)
    (res : StatusEvent)
    → (apply_event env ev id server_ts kind job db).0 ≡ some res
    → IsStep kind job res
unfolding apply_event event_of
apply_event-IsStep env ev id server_ts start job db res h =
    let (p, n) = conclude-IsStep env ev id job _ _ res h in record { prev = p; new = n }
apply_event-IsStep env ev id server_ts success job db res h =
    let (p, n) = conclude-IsStep env ev id job _ _ res h in record { prev = p; new = n }
apply_event-IsStep env ev id server_ts fail job db res h =
    let (p, n) = conclude-IsStep env ev id job _ _ res h in record { prev = p; new = n }

apply_found-IsStep :
    (env : Env) (ev : ExecEvent) (id : ExecId) (server_ts : ℕ) (o : Option Job) (db : Db)
    (res : StatusEvent)
    → (apply_found env ev id server_ts o db).0 ≡ some res
    → (job : Job) × (o ≡ some job) × IsStep ev.kind job res
apply_found-IsStep env ev id server_ts none db res h = cc
apply_found-IsStep env ev id server_ts (some job) db res h =
    (job, refl, apply_event-IsStep env ev id server_ts ev.kind job db res h)

own_job-record_event :
    (ev : ExecEvent) (id : ExecId) (server_ts job org : ℕ) (db : Db)
    → own_job job org (record_event ev id server_ts db) ≡ own_job job org db
unfolding own_job record_event
own_job-record_event ev id server_ts job org db = refl

process_as-IsStep :
    (env : Env) (ev : ExecEvent) (id : ExecId) (server_ts : ℕ) (db : Db) (res : StatusEvent)
    → (process_as env ev id server_ts db).0 ≡ some res
    → (job : Job) × (own_job ev.job_id ev.org_id db ≡ some job) × IsStep ev.kind job res
unfolding process_as
process_as-IsStep env ev id server_ts db res h = elim (Bool-cases (seen_event id ev.sequence db)) [
  | inl old ↦ absurd (ground arith)
  | inr new ↦
      let recorded = record_event ev id server_ts db in
      let (job, found, step) =
        apply_found-IsStep env ev id server_ts (own_job ev.job_id ev.org_id recorded) recorded res
          (rw new at h) in
      (job, sym (own_job-record_event ev id server_ts ev.job_id ev.org_id db) ∙ found, step)
]

-- A processed event announces the step of the status machine from the status that the job's row had.
pub process-transition :
    (env : Env) (ev : ExecEvent) (db : Db) (res : StatusEvent)
    → (process env ev db).0 ≡ some res
    → (job : Job) × (own_job ev.job_id ev.org_id db ≡ some job)
      × (res.prev_status ≡ job.status)
      × (res.new_status ≡ transition job.status (event_of ev.kind))
unfolding process
process-transition env ev db res h =
    let (job, found, step) = process_as-IsStep env ev _ _ db res h in
    (job, found, step.prev, step.new)

code_eq : (n : ℕ) → (n == n) ≡ true
code_eq n = ground arith

eq_status_of_eq : (a b : JobStatus) → a ≡ b → eq_status a b ≡ true
eq_status_of_eq a b e = rw e (code_eq (status_code b))

changed_only-same :
    (o : Option StatusEvent)
    → ((res : StatusEvent) → o ≡ some res → res.new_status ≡ res.prev_status)
    → changed_only o ≡ none
changed_only-same none h = refl
changed_only-same (some res) h =
    rw (eq_status_of_eq res.prev_status res.new_status (sym (h res refl)))

-- Nothing goes out for an event that leaves the status as it is.
pub handle_one-quiet :
    (env : Env) (ev : ExecEvent) (db : Db) (job : Job)
    → own_job ev.job_id ev.org_id db ≡ some job
    → transition job.status (event_of ev.kind) ≡ job.status
    → (handle_one env ev db).0 ≡ none
unfolding handle_one
handle_one-quiet env ev db job found stays = changed_only-same (process env ev db).0 λ res h.
    let (job', found', prev, new) = process-transition env ev db res h in
    let e : job' ≡ job = some-injective _ _ (sym found' ∙ found) in
    new
    ∙ ap (λ j. transition j.status (event_of ev.kind)) e
    ∙ stays
    ∙ ap (λ j. j.status) (sym e)
    ∙ sym prev

-- Of a job whose status is already failed, no further failure that comes without a start is announced,
-- whatever the failure count: no rule is evaluated for it.
pub repeated_failure-quiet :
    (env : Env) (ev : ExecEvent) (db : Db) (job : Job)
    → own_job ev.job_id ev.org_id db ≡ some job
    → ev.kind ≡ fail
    → job.status ≡ JobStatus.failed
    → (handle_one env ev db).0 ≡ none
repeated_failure-quiet env ev db job found kind failed_before =
    handle_one-quiet env ev db job found (rw (kind, failed_before) failing)
  where
    failing : transition JobStatus.failed (event_of fail) ≡ JobStatus.failed
    failing = unfold transition event_of in refl

-- The statuses that the processor can announce.
abbrev pub is_processed : JobStatus → Bool
is_processed JobStatus.running = true
is_processed JobStatus.healthy = true
is_processed JobStatus.recovered = true
is_processed JobStatus.failed = true
is_processed JobStatus.paused = true
is_processed _ = false

processed_step : (s : JobStatus) (k : Kind) → is_processed (transition s (event_of k)) ≡ true
unfolding transition event_of
processed_step s k = ground arith

-- The processor announces no late, missed, timed out or unknown job.
pub process-is_processed :
    (env : Env) (ev : ExecEvent) (db : Db) (res : StatusEvent)
    → (process env ev db).0 ≡ some res
    → is_processed res.new_status ≡ true
process-is_processed env ev db res h =
    let (job, found, prev, new) = process-transition env ev db res h in
    rw new (processed_step job.status ev.kind)
