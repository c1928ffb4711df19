-- ===== src/Samples/Ticks.antt =====
-- Ticks of the generator and of the reconciler over a small set of tables.
use jobwatch.Prelude.{
  ℕ, suc, none, ◌≤◌, ◌+◌, ◌<◌, ◌≡◌, refl, true, false, some, [], arith, Mem, head, tail, any_of,
  length, count_where,
}
use jobwatch.Status.{SlotState}
use jobwatch.Db.{Job, ExpectedRun, Db}
use jobwatch.Reconciler.{settle_slots}
use jobwatch.Reconciler.Outage.{settle_slots-outage}
use jobwatch.Schedule.{slots_between, slots_loop, slot_at, deadline_for, generation_window, Slot}
use jobwatch.Generator.{
  Draft, Inserted, run_batch, tick, is_due, select_jobs, oldest_first, insert_oldest, batch_of,
  fill, is_slot, job_slots,
}
use jobwatch.Generator.Covers.{run_batch-covers}
use jobwatch.Generator.Ticks.{is_stale, tick_terminates}
use jobwatch.Samples.{hourly, backup, slot_row, tables}

settle_slots-outage_example :
    (twice : ExpectedRun) × (once : ExpectedRun) × Mem twice
      (settle_slots 9000000000 (settle_slots 3700000000 tables)).expected_runs
    × Mem once (settle_slots 9000000000 tables).expected_runs
    × (twice.id ≡ 1)
    × (once.id ≡ 1)
    × (twice.state ≡ once.state)
settle_slots-outage_example =
    settle_slots-outage 3700000000 9000000000 tables (slot_row 1 SlotState.pending) (omega arith)
      head refl refl (omega arith)

-- The generator.
abbrev draft_at : ℕ → Draft
draft_at t = record {
  org_id = 7;
  job_id = 1;
  slot = record { scheduled_for = t; grace_until = t + 60; deadline = t + 180 };
}

abbrev empty_table : Inserted
empty_table = record { runs = []; next_id = 1; rowcount = 0 }

selected : Mem backup (select_jobs 200 0 tables)
unfolding select_jobs is_due oldest_first insert_oldest
selected = head

few : length (batch_of hourly 0 (select_jobs 200 0 tables)).cols < 50000
unfolding select_jobs is_due oldest_first insert_oldest fill slots_between slots_loop slot_at
    deadline_for generation_window
few = omega arith

abbrev third : Slot
third = record { scheduled_for = 10800000000; grace_until = 10860000000; deadline = 10980000000 }

planned : Mem third (job_slots hourly 0 backup backup.schedule_expr)
unfolding slots_between slots_loop slot_at deadline_for generation_window
planned = tail (tail head)

run_batch-covers_example :
    any_of (is_slot 1 10800000000) (run_batch hourly 200 0 tables).db.expected_runs ≡ true
run_batch-covers_example = run_batch-covers hourly 0 200 tables backup third few selected planned

few_stale : count_where (is_stale 0) tables.jobs < 2
unfolding is_stale
few_stale = omega arith

tick_terminates_example :
    (after : Db) × (slots : ℕ) × (n : ℕ) × (tick hourly 2 200 (λ k. 0) 0 tables
      ≡ some (after, slots))
    × (tick hourly (suc n) 200 (λ k. 0) 0 tables ≡ some (after, slots))
    × (tick hourly n 200 (λ k. 0) 0 tables ≡ none)
    × (n ≤ count_where (is_stale 0) tables.jobs)
    × ((k : Job) → Mem k after.jobs → is_due 0 k ≡ false)
tick_terminates_example =
    tick_terminates hourly 200 0 2 (λ k. 0) 0 tables (omega arith) (λ k. (omega arith, omega arith))
      few_stale
