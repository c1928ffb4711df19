-- ===== src/Samples/Passes.antt =====
-- State passes of the reconciler over a small set of tables.
use jobwatch.Prelude.{
  ℕ, ◌+◌, ◌≡◌, ◌≢◌, ◌⊎◌, inl, inr, refl, ap, true, none, some, [], ◌∷◌, arith, Mem, head, tail,
  Mem-cases,
}
use jobwatch.Status.{JobState, JobStatus, SlotState, derive, legacy_status}
use jobwatch.Db.{Job, Agent, ExpectedRun, Db, find_job}
use jobwatch.JobState.{
  compute, facts_of, timeline, open_late, has_running, recovered, failures_since_success,
  agent_offline,
}
use jobwatch.JobState.Stored.{Says}
use jobwatch.Reconciler.{
  settle_slots, to_skip, to_late, to_miss, to_time_out, excused, settle_maintenance,
  mark_slots_late, mark_missed, mark_timeouts,
}
use jobwatch.Reconciler.Pass.{tick, recompute_batches}
use jobwatch.Reconciler.Pass.Touched.{slot_moved, tick-Says}
use jobwatch.Reconciler.Pass.Batches.{batch, recompute_batches-Says}
use jobwatch.Samples.{backup, slot_row, tables}

after_tick :
    (r : ExpectedRun)
    → Mem r (settle_slots 4000000000 tables).expected_runs
    → (r.state ≡ SlotState.missed) ⊎ (r.id ≡ 2)
unfolding settle_slots settle_maintenance mark_slots_late mark_missed mark_timeouts to_skip to_late
    to_miss to_time_out excused
after_tick r m = elim (Mem-cases m) [
  | inl e ↦ inl (ap (λ (x : ExpectedRun). x.state) e)
  | inr m' ↦ elim (Mem-cases m') [
    | inl e ↦ inr (ap (λ (x : ExpectedRun). x.id) e)
    | inr m'' ↦ elim m'' [ ]
  ]
]

first_gone : ¬ Mem (slot_row 1 SlotState.pending) (settle_slots 4000000000 tables).expected_runs
first_gone m = elim (after_tick (slot_row 1 SlotState.pending) m) [
  | inl e ↦ cc
  | inr e ↦ omega arith
]

tick-Says_example :
    (k : Job) × (find_job 1 (tick 4000000000 tables).1 ≡ some k)
    × Says (compute (settle_slots 4000000000 tables) backup 4000000000) k
tick-Says_example =
    tick-Says 4000000000 tables backup refl
      (slot_moved (slot_row 1 SlotState.pending) head refl first_gone)

recompute_batches-Says_example :
    (k : Job) × (find_job 1
        (recompute_batches 3 2 (λ n. 4000000000 + n) ((2, 7) ∷ (3, 7) ∷ (1, 7) ∷ []) tables).1
      ≡ some k)
    × ((n org' : ℕ) × Mem (1, org') (batch 2 n ((2, 7) ∷ (3, 7) ∷ (1, 7) ∷ []))
        × Says (compute tables backup (4000000000 + n)) k)
recompute_batches-Says_example =
    recompute_batches-Says 1 7 3 2 (λ n. 4000000000 + n) ((2, 7) ∷ (3, 7) ∷ (1, 7) ∷ []) tables
      backup (omega arith) (omega arith) refl (tail (tail head))

-- A suspended job as it is first inserted.
abbrev suspended : Job
suspended = record backup {
  paused = true;
  status = JobStatus.paused;
  job_state = JobState.unknown;
  unknown_reason = none;
}

-- A job on a server whose agent reports.
abbrev hosted : Job
hosted = record backup { server_id = some 60 }

abbrev reporter : Agent
reporter = record { id = 70; last_seen_at = some 10000000; heartbeat_interval_s = 60 }

abbrev hosted_tables : Db
hosted_tables = record tables {
  jobs = hosted ∷ [];
  servers = (record { id = 60; agent_id = some 70 }) ∷ [];
  agents = reporter ∷ [];
}

hosted-Says : Says (compute hosted_tables hosted 20000000) hosted
unfolding compute facts_of timeline open_late has_running recovered failures_since_success
    agent_offline derive legacy_status
hosted-Says = record { state = refl; reason = refl; legacy = refl; fails = refl }

not_zero : reporter.heartbeat_interval_s ≢ 0
not_zero e = omega arith
