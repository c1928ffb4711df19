-- ===== src/Processor/Finish.antt =====
-- What the branches of `process` in processor.py leave in the tables of executions and slots.
use jobwatch.Prelude.{
  ℕ, ◌≡◌, inl, inr, refl, sym, subst, Bool, true, false, Option, none, some, List, [], ◌∷◌,
  Bool-cases, any_of, All, All-weaken, All-update_where, All-append, any_of-false, update_where,
}
use jobwatch.Status.{SlotState}
use jobwatch.Db.{Uuid, ExecId, ExecStatus, Job, Execution, ExpectedRun, Db}
use jobwatch.Attach.{attach_slot, attach_to, slot_for_start, bind_execution}
use jobwatch.Ingest.{
  ExecEvent, Env, start, seen_event, record_event, event_ts, upsert_start, started_row, restarted,
  same_execution,
}
use jobwatch.Processor.{process_as, apply_event, own_job, on_start}
use jobwatch.Processor.Frame.{conclude-SameRuns, process_as-apply}

-- Binding to a slot keeps every property of the executions that does not speak of the slot.
attach_to-All :
    (P : Execution → Type 0) (org : Uuid) (id : ExecId) (new : SlotState) (now : ℕ) (db : Db)
    (o : Option ExpectedRun)
    → ((n : ℕ) (e : Execution) → P e → P (bind_execution n e))
    → All P db.executions
    → All P (attach_to org id new now db o).1.executions
attach_to-All P org id new now db none keep h = h
attach_to-All P org id new now db (some row) keep h =
    All-update_where P _ (bind_execution row.id) db.executions (keep row.id) h

not_both : {b : Bool} → b ≡ false → b ≡ true → ⊥
not_both f h = cc

-- An execution with the event's key is running.
abbrev pub Reopened : ExecId → ℕ → Execution → Type 0
Reopened id ts e = same_execution id ts e ≡ true → e.status ≡ ExecStatus.running

restart-All :
    (ev : ExecEvent) (id : ExecId) (server_ts : ℕ) (xs : List Execution)
    → All
        (Reopened id (event_ts ev id server_ts))
        (update_where (same_execution id (event_ts ev id server_ts)) (restarted ev id server_ts) xs)
unfolding restarted
restart-All ev id server_ts [] = tt
restart-All ev id server_ts (x ∷ xs) =
    elim (Bool-cases (same_execution id (event_ts ev id server_ts) x)) [
      | inl t ↦ (rw t (λ _. refl), restart-All ev id server_ts xs)
      | inr f ↦ (rw f (λ h. absurd (not_both f h)), restart-All ev id server_ts xs)
    ]

upsert_start-All :
    (ev : ExecEvent) (id : ExecId) (server_ts : ℕ) (db : Db)
    → All (Reopened id (event_ts ev id server_ts)) (upsert_start ev id server_ts db).executions
unfolding upsert_start
upsert_start-All ev id server_ts db =
    elim (Bool-cases (any_of (same_execution id (event_ts ev id server_ts)) db.executions)) [
      | inl old ↦ rw old (restart-All ev id server_ts db.executions)
      | inr new ↦ rw new (
          All-append (Reopened id (event_ts ev id server_ts)) db.executions
            (started_row ev id server_ts ∷ [])
            (All-weaken db.executions (λ e f h. absurd (not_both f h))
              (any_of-false _ db.executions new))
            (λ _. unfold started_row in refl, tt))
    ]

apply_start-All :
    (env : Env) (ev : ExecEvent) (id : ExecId) (server_ts : ℕ) (job : Job) (db : Db)
    → All
        (Reopened id (event_ts ev id server_ts))
        (apply_event env ev id server_ts start job db).1.executions
unfolding apply_event on_start attach_slot
apply_start-All env ev id server_ts job db =
    subst (All (Reopened id (event_ts ev id server_ts)))
      (sym (conclude-SameRuns env ev id job _ (on_start env ev id server_ts db)).executions)
      (attach_to-All (Reopened id (event_ts ev id server_ts)) ev.org_id id _ env.now
        (upsert_start ev id server_ts db)
        (slot_for_start ev.org_id ev.job_id _ (upsert_start ev id server_ts db)) (λ n e h. h)
        (upsert_start-All ev id server_ts db))

-- After a start event every execution with its identifier and instant is running, also one that had
-- finished.
pub start_reopens :
    (env : Env) (ev : ExecEvent) (id : ExecId) (server_ts : ℕ) (db : Db) (job : Job)
    → seen_event id ev.sequence db ≡ false
    → own_job ev.job_id ev.org_id db ≡ some job
    → ev.kind ≡ start
    → All (Reopened id (event_ts ev id server_ts)) (process_as env ev id server_ts db).1.executions
start_reopens env ev id server_ts db job new found kind =
    subst (λ r. All (Reopened id (event_ts ev id server_ts)) r.1.executions)
      (sym (process_as-apply env ev id server_ts start job db new found kind))
      (apply_start-All env ev id server_ts job (record_event ev id server_ts db))
