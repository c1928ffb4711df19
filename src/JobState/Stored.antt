-- ===== src/JobState/Stored.antt =====
-- What `recompute_state` of job_state.py leaves in the tables, and when it announces a change.
use mathlib.Core.Option
use jobwatch.Prelude.{
  ℕ, ◌≡◌, ◌↔◌, inl, inr, refl, ap, ◌∙◌, Bool, true, ◌&&◌, Option, none, some, arith, Bool-cases,
  find_first-update_where, find_first-holds, update_if, ◌==◌,
}
use jobwatch.Status.{
  JobState, UnknownReason, JobStatus, eq_state, eq_status, eq_reason, state_code, status_code,
  reason_code,
}
use jobwatch.Db.{Uuid, Job, Db, find_job}
use jobwatch.JobState.{
  Computed, compute, facts_of, unchanged, store_count, store_state, write_job, recompute_row,
  recompute_found, recompute_state, timeline, open_late, has_running, recovered,
  failures_since_success,
}

code_eq : (n : ℕ) → (n == n) ≡ true
code_eq n = ground arith

and_eq : {a b : Bool} → a ≡ true → b ≡ true → (a && b) ≡ true
and_eq h k = rw (h, k)

-- The row says what was computed.
pub record Says (c : Computed) (j : Job) : Type 0 where
  pub state : j.job_state ≡ c.state
  pub reason : j.unknown_reason ≡ c.reason
  pub legacy : j.status ≡ c.legacy
  pub fails : j.consecutive_failures ≡ c.fails

eq_state_lem : (a b : JobState) → eq_state a b ≡ true → b ≡ a
eq_state_lem a b h = ground arith

eq_status_lem : (a b : JobStatus) → eq_status a b ≡ true → b ≡ a
eq_status_lem a b h = ground arith

eq_reason_lem : (a b : Option UnknownReason) → eq_reason a b ≡ true → b ≡ a
eq_reason_lem a b h = ground arith

count-Says : (c : Computed) (j : Job) → unchanged c j ≡ true → Says c (store_count c.fails j)
count-Says c j h = record {
  state = eq_state_lem c.state j.job_state (ground arith);
  reason = eq_reason_lem c.reason j.unknown_reason (ground arith);
  legacy = eq_status_lem c.legacy j.status (ground arith);
  fails = refl;
}

-- The row of a job after a write that keeps its identifier.
pub find_job-write_job :
    (id : Uuid) (f : Job → Job) (db : Db) (j : Job)
    → ((k : Job) → (f k).id ≡ k.id)
    → find_job id db ≡ some j
    → find_job id (write_job id f db) ≡ some (f j)
find_job-write_job id f db j keep h =
    let mine : (j.id == id) ≡ true = (find_first-holds (λ k. k.id == id) db.jobs h).0 in
    find_first-update_where (λ k. k.id == id) (λ k. k.id == id) f db.jobs
      (λ k. ap (λ i. i == id) (keep k))
    ∙ ap (Option.map (update_if (λ k. k.id == id) f)) h
    ∙ ap some (rw mine)

pub recompute_state-row :
    (id org now : ℕ) (db : Db) (j : Job)
    → find_job id db ≡ some j
    → recompute_state id org now db ≡ recompute_row id org now db j (compute db j now)
unfolding recompute_state
recompute_state-row id org now db j h = ap (recompute_found id org now db) h

row-Says :
    (id org now : ℕ) (db : Db) (j : Job) (c : Computed)
    → find_job id db ≡ some j
    → (k : Job) × (find_job id (recompute_row id org now db j c).1 ≡ some k) × Says c k
unfolding recompute_row
row-Says id org now db j c h = elim (Bool-cases (unchanged c j)) [
  | inl same ↦ (
    store_count c.fails j,
    rw same (find_job-write_job id (store_count c.fails) db j (λ k. refl) h),
    count-Says c j same,
  )
  | inr differs ↦ (
    store_state c.state c.reason c.legacy c.fails now j,
    rw differs (
        find_job-write_job id (store_state c.state c.reason c.legacy c.fails now) db j (λ k. refl)
          h),
    record { state = refl; reason = refl; legacy = refl; fails = refl },
  )
]

-- After a pass over a job its row says what was computed from the tables before the pass: the state and
-- reason of `derive`, the status that goes with them and the failure count, whether or not a change is
-- announced.
pub recompute_state-Says :
    (id org now : ℕ) (db : Db) (j : Job)
    → find_job id db ≡ some j
    → (k : Job) × (find_job id (recompute_state id org now db).1 ≡ some k)
      × Says (compute db j now) k
recompute_state-Says id org now db j h =
    rw (recompute_state-row id org now db j h) (row-Says id org now db j (compute db j now) h)

unchanged_of_eq :
    (c : Computed) (j : Job)
    → (j.job_state ≡ c.state) × (j.status ≡ c.legacy) × (j.unknown_reason ≡ c.reason)
    → unchanged c j ≡ true
unchanged_of_eq c j h =
    rw (h.0, h.1, h.2)
      (and_eq (code_eq (state_code c.state))
        (and_eq (code_eq (status_code c.legacy)) (code_eq (reason_code c.reason))))

row-quiet_iff :
    (id org now : ℕ) (db : Db) (j : Job) (c : Computed)
    → ((recompute_row id org now db j c).0 ≡ none)
      ↔ ((j.job_state ≡ c.state) × (j.status ≡ c.legacy) × (j.unknown_reason ≡ c.reason))
unfolding recompute_row
row-quiet_iff id org now db j c = (
  λ q. elim (Bool-cases (unchanged c j)) [
    | inl same ↦ let s = count-Says c j same in (s.state, s.legacy, s.reason)
    | inr differs ↦ absurd (ground arith)
  ],
  λ h. rw (unchanged_of_eq c j h),
)

-- A change is announced exactly when the row's state, status or reason differs from what was computed.
pub recompute_state-quiet_iff :
    (id org now : ℕ) (db : Db) (j : Job)
    → find_job id db ≡ some j
    → ((recompute_state id org now db).0 ≡ none) ↔ (
        (j.job_state ≡ (compute db j now).state)
        × (j.status ≡ (compute db j now).legacy)
        × (j.unknown_reason ≡ (compute db j now).reason))
recompute_state-quiet_iff id org now db j h =
    rw (recompute_state-row id org now db j h) (row-quiet_iff id org now db j (compute db j now))

-- The writes touch nothing that the computation reads.
compute-store_count :
    (id : Uuid) (f : Job → Job) (n : ℕ) (db : Db) (j : Job) (now : ℕ)
    → compute (write_job id f db) (store_count n j) now ≡ compute db j now
unfolding compute facts_of timeline open_late has_running recovered failures_since_success
compute-store_count id f n db j now = refl

compute-store_state :
    (id : Uuid) (f : Job → Job) (c : Computed) (t : ℕ) (db : Db) (j : Job) (now : ℕ)
    → compute (write_job id f db) (store_state c.state c.reason c.legacy c.fails t j) now
      ≡ compute db j now
unfolding compute facts_of timeline open_late has_running recovered failures_since_success
compute-store_state id f c t db j now = refl

-- The row after a pass, and that at any time the same would be computed from the tables after it.
pub row_settled :
    (id org now : ℕ) (db : Db) (j : Job) (c : Computed)
    → find_job id db ≡ some j
    → (k : Job) × (find_job id (recompute_row id org now db j c).1 ≡ some k)
      × Says c k
      × ((t : ℕ) → compute (recompute_row id org now db j c).1 k t ≡ compute db j t)
unfolding recompute_row
row_settled id org now db j c h = elim (Bool-cases (unchanged c j)) [
  | inl same ↦ (
    store_count c.fails j,
    rw same (find_job-write_job id (store_count c.fails) db j (λ k. refl) h),
    count-Says c j same,
    λ t. rw same (compute-store_count id (store_count c.fails) c.fails db j t),
  )
  | inr differs ↦ (
    store_state c.state c.reason c.legacy c.fails now j,
    rw differs (
        find_job-write_job id (store_state c.state c.reason c.legacy c.fails now) db j (λ k. refl)
          h),
    record { state = refl; reason = refl; legacy = refl; fails = refl },
    λ t.
        rw differs
          (compute-store_state id (store_state c.state c.reason c.legacy c.fails now) c now db j t),
  )
]

-- A second pass at the same instant announces nothing.
pub recompute_state_settled :
    (id org now : ℕ) (db : Db) (j : Job)
    → find_job id db ≡ some j
    → (recompute_state id org now (recompute_state id org now db).1).0 ≡ none
recompute_state_settled id org now db j h =
    let (k, found, says, same) = row_settled id org now db j (compute db j now) h in
    let after = (recompute_row id org now db j (compute db j now)).1 in
    rw (recompute_state-row id org now db j h) (
      (recompute_state-quiet_iff id org now after k found).1
        (rw (same now) (says.state, says.legacy, says.reason)))
