-- ===== src/Generator.antt =====
-- cronsentinel/workers/schedule_generator.py: the slots of every scheduled job that is not paused are
-- written ahead of time, a batch of jobs after the other.
pub mod Unique
pub mod Covers
pub mod Selects
pub mod Ticks
use Prim.Native.String.{String}
use jobwatch.Prelude.{
  ℕ, zero, suc, ◌+◌, ◌-◌, Bool, true, false, ◌&&◌, not, Option, none, some, List, [], ◌∷◌, ◌++◌,
  map, ◌==◌, ltb, leb, if◌then◌else◌, is_some, keep_if, any_of, find_first, take, drop, length,
}
use jobwatch.Status.{SlotState}
use jobwatch.Schedule.{
  Cron, Slot, seconds, horizon, max_slots_per_job, generation_window, slots_between,
}
use jobwatch.Db.{Uuid, Job, ExpectedRun, Db}

abbrev pub slot_chunk : ℕ
slot_chunk = 20000

abbrev pub slot_budget : ℕ
slot_budget = 50000

-- timedelta(minutes=30)
abbrev pub refresh_margin : ℕ
refresh_margin = seconds 1800

-- generated_through IS NULL OR generated_through < t
abbrev pub is_before : Option ℕ → ℕ → Bool
is_before none t = true
is_before (some g) t = ltb g t

-- The WHERE clause of the selection.
unfoldable pub is_due : ℕ → Job → Bool
is_due now j =
    not j.paused
    && (is_some j.schedule_expr && is_before j.generated_through (now + horizon - refresh_margin))

-- ORDER BY generated_through NULLS FIRST; rows with one value keep their order.
abbrev pub goes_after : Option ℕ → Option ℕ → Bool
goes_after (some a) none = true
goes_after (some a) (some b) = ltb b a
goes_after none b = false

unfoldable pub insert_oldest : Job → List Job → List Job
insert_oldest j [] = j ∷ []
insert_oldest j (k ∷ ks) =
    let rest = k ∷ insert_oldest j ks in
    if goes_after j.generated_through k.generated_through then rest else j ∷ k ∷ ks

unfoldable pub oldest_first : List Job → List Job
unfolding insert_oldest
oldest_first [] = []
oldest_first (j ∷ js) = insert_oldest j (oldest_first js)

unfoldable pub select_jobs : ℕ → ℕ → Db → List Job
unfolding is_due oldest_first
select_jobs limit now db = take limit (oldest_first (keep_if (is_due now) db.jobs))

-- One entry of the five columns `o`, `j`, `sf`, `gu` and `dl`.
pub record Draft : Type 0 where
  pub org_id : Uuid
  pub job_id : Uuid
  pub slot : Slot

-- `cols`, and `ids` with `ends`.
pub record Batch : Type 0 where
  pub cols : List Draft
  pub ends : List (Uuid × ℕ)

abbrev pub draft : Job → Slot → Draft
draft j s = record { org_id = j.org_id; job_id = j.id; slot = s }

-- `except Exception`: no slots, and the job is advanced all the same.
abbrev pub slots_or_none : Option (List Slot) → List Slot
slots_or_none none = []
slots_or_none (some slots) = slots

abbrev pub window_end : ℕ → Job → ℕ
window_end now j = (generation_window j.generated_through j.created_at now).1

module _ (cron : Cron) where
  abbrev pub job_slots : ℕ → Job → Option String → List Slot
  job_slots now j none = []
  job_slots now j (some expr) =
      let (start, end) = generation_window j.generated_through j.created_at now in
      slots_or_none
        (slots_between cron expr j.tz start end j.grace_s j.expected_runtime_s max_slots_per_job)

  abbrev pub add_job : ℕ → Job → Batch → Batch
  add_job now j b = record {
    cols = b.cols ++ map (draft j) (job_slots now j j.schedule_expr);
    ends = b.ends ++ ((j.id, window_end now j) ∷ []);
  }

  -- The `for j in jobs` loop, which stops once the slot budget is used up.
  unfoldable pub fill : ℕ → List Job → Batch → Batch
  fill now [] b = b
  fill now (j ∷ js) b =
      let rest = fill now js (add_job now j b) in
      if leb slot_budget (length b.cols) then b else rest

-- The unique index on (job_id, scheduled_for).
abbrev pub is_slot : Uuid → ℕ → ExpectedRun → Bool
is_slot job t r = r.job_id == job && r.scheduled_for == t

abbrev pub new_run : ℕ → Draft → ExpectedRun
new_run id d = record {
  id = id;
  org_id = d.org_id;
  job_id = d.job_id;
  scheduled_for = d.slot.scheduled_for;
  grace_until = d.slot.grace_until;
  deadline = d.slot.deadline;
  state = SlotState.pending;
  execution_id = none;
  matched_at = none;
  settled_at = none;
}

-- The table, the next value of its identifier, and the sum of the row counts.
pub record Inserted : Type 0 where
  pub runs : List ExpectedRun
  pub next_id : ℕ
  pub rowcount : ℕ

-- INSERT of one row, ON CONFLICT (job_id, scheduled_for) DO NOTHING.
unfoldable pub insert_slot : Draft → Inserted → Inserted
insert_slot d t =
    let added : Inserted = record {
      runs = t.runs ++ (new_run t.next_id d ∷ []);
      next_id = suc t.next_id;
      rowcount = suc t.rowcount;
    } in
    if any_of (is_slot d.job_id d.slot.scheduled_for) t.runs
    then record t { next_id = suc t.next_id }
    else added

unfoldable pub insert_slots : List Draft → Inserted → Inserted
unfolding insert_slot
insert_slots [] t = t
insert_slots (d ∷ ds) t = insert_slots ds (insert_slot d t)

-- The loop over `range(0, len, SLOT_CHUNK)`, with one step of fuel per chunk.
unfoldable pub insert_chunks : ℕ → ℕ → List Draft → Inserted → Inserted
unfolding insert_slots
insert_chunks zero size ds t = t
insert_chunks (suc fuel) size [] t = t
insert_chunks (suc fuel) size (d ∷ ds) t =
    insert_chunks fuel size (drop size (d ∷ ds)) (insert_slots (take size (d ∷ ds)) t)

-- UPDATE jobs SET generated_through = v.t FROM unnest(ids, ts) AS v(id, t) WHERE jobs.id = v.id
abbrev pub advance_to : Option (Uuid × ℕ) → Job → Job
advance_to none j = j
advance_to (some v) j = record j { generated_through = some v.1 }

unfoldable pub advance : List (Uuid × ℕ) → List Job → List Job
advance ends jobs = map (λ j. advance_to (find_first (λ v. v.0 == j.id) ends) j) jobs

pub record Pass : Type 0 where
  pub db : Db
  pub processed : ℕ
  pub inserted : ℕ

module _ (cron : Cron) where
  abbrev pub batch_of : ℕ → List Job → Batch
  batch_of now jobs = fill cron now jobs (record { cols = []; ends = [] })

  abbrev pub insert_batch : Db → List Draft → Inserted
  insert_batch db cols =
      insert_chunks (length cols) slot_chunk cols
        (record { runs = db.expected_runs; next_id = db.next_run_id; rowcount = 0 })

  abbrev pub write_batch : Db → List Job → Batch → Pass
  write_batch db jobs b =
      let t = insert_batch db b.cols in
      record {
        db = record db {
          expected_runs = t.runs;
          next_run_id = t.next_id;
          jobs = advance b.ends db.jobs;
        };
        processed = length jobs;
        inserted = t.rowcount;
      }

  -- No job: (0, 0), and nothing is written.
  abbrev pub run_jobs : ℕ → Db → List Job → Pass
  run_jobs now db [] = record { db = db; processed = 0; inserted = 0 }
  run_jobs now db (j ∷ js) = write_batch db (j ∷ js) (batch_of now (j ∷ js))

  unfoldable pub run_batch : ℕ → ℕ → Db → Pass
  unfolding fill insert_chunks advance select_jobs
  run_batch limit now db = run_jobs now db (select_jobs limit now db)

  -- `tick`: batches until one finds no job. `clock n` is what the n-th batch reads from the clock; `none`
  -- is out of fuel.
  unfoldable pub tick : ℕ → ℕ → (ℕ → ℕ) → ℕ → Db → Option (Db × ℕ)
  unfolding run_batch
  tick zero limit clock total db = none
  tick (suc fuel) limit clock total db =
      let p = run_batch limit (clock 0) db in
      let rest = tick fuel limit (λ n. clock (suc n)) (total + p.inserted) p.db in
      if p.processed == 0 then some (p.db, total + p.inserted) else rest
