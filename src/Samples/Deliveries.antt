-- ===== src/Samples/Deliveries.antt =====
-- Messages of executions to a small set of tables.
use jobwatch.Prelude.{[], ◌∷◌, ◌≡◌, refl, true, false, none, some, Mem, head, arith}
use jobwatch.Status.{JobStatus, SlotState, JobState, derive, legacy_status}
use jobwatch.Status.Machine.{transition}
use jobwatch.Db.{Db, given, Job, ExpectedRun}
use jobwatch.JobState.{
  StatusEvent, recompute_state, recompute_row, compute, facts_of, timeline, open_late, has_running,
  recovered, failures_since_success, agent_offline,
}
use jobwatch.Attach.{slot_for_start, attach_slot}
use jobwatch.Ingest.{
  ExecEvent, start, fail, seen_event, single_start, event_ts, record_event, insert_single,
  single_row, store_tails, store_tail, last_chars,
}
use jobwatch.Processor.{
  process, process_as, apply_event, conclude, own_job, handle_one, on_finish, write_finish,
  refresh_next,
}
use jobwatch.Processor.Once.{process_twice}
use jobwatch.Processor.Wire.{repeated_failure-quiet}
use jobwatch.Processor.Settles.{
  as_failed, is_pending, CanHold, IsSettledBy, run_start, known, finish_settles,
}
use jobwatch.Consumer.{Round, deliveries}
use jobwatch.Consumer.Losses.{deliveries-lost}
use jobwatch.Samples.{backup, slot_row, tables, fail_event, env}

process_twice_example :
    process (env 9000000000) fail_event (process (env 3620000000) fail_event tables).1
    ≡ (none, (process (env 3620000000) fail_event tables).1)
process_twice_example =
    process_twice (env 3620000000) (env 9000000000) fail_event (given 6) tables refl

own_backup : own_job 1 7 tables ≡ some backup
unfolding own_job
own_backup = refl

repeated_failure-quiet_example : (handle_one (env 3620000000) fail_event tables).0 ≡ none
repeated_failure-quiet_example =
    repeated_failure-quiet (env 3620000000) fail_event tables backup own_backup refl refl

abbrev failure_status : StatusEvent
failure_status = record {
  org_id = 7;
  job_id = 1;
  execution_id = some (given 6);
  prev_status = JobStatus.failed;
  new_status = JobStatus.failed;
  prev_state = none;
  new_state = some JobState.failing;
  unknown_reason = none;
  consecutive_failures = 2;
}

processed : (process (env 3620000000) fail_event tables).0 ≡ some failure_status
unfolding process process_as apply_event own_job seen_event record_event on_finish write_finish
    single_start insert_single single_row store_tails store_tail last_chars attach_slot
    slot_for_start conclude refresh_next recompute_state recompute_row compute facts_of timeline
    open_late has_running recovered failures_since_success agent_offline derive legacy_status
    transition event_ts
processed = refl

no_event : seen_event (given 6) 1 tables ≡ false
unfolding seen_event
no_event = refl

held :
    CanHold fail_event
      (run_start fail_event (given 6) 3610000000 (known fail_event (given 6) tables))
      (slot_row 1 SlotState.pending)
unfolding run_start known single_start event_ts
held = record {
  job_id = refl;
  org_id = refl;
  unsettled = is_pending;
  not_early = omega arith;
  in_time = omega arith;
}

finish_settles_example :
    (row after : ExpectedRun) × Mem row tables.expected_runs
    × CanHold fail_event
        (run_start fail_event (given 6) 3610000000 (known fail_event (given 6) tables))
        row
    × Mem after (process_as (env 3620000000) fail_event (given 6) 3610000000 tables).1.expected_runs
    × IsSettledBy (given 6) SlotState.failed 3620000000 row after
finish_settles_example =
    finish_settles (env 3620000000) fail_event (given 6) 3610000000 fail SlotState.failed backup
      tables (slot_row 1 SlotState.pending) no_event own_backup refl as_failed head held

-- A failure of the same job, once it is healthy: the status changes, and its publication fails.
abbrev healthy : Job
healthy = record backup { status = JobStatus.healthy }

abbrev healthy_tables : Db
healthy_tables = record tables { jobs = healthy ∷ [] }

abbrev first_failure : StatusEvent
first_failure = record failure_status { prev_status = JobStatus.healthy }

abbrev broken : Round
broken = record {
  env = env 3620000000;
  session_fails = false;
  publish_fails = true;
  ack_fails = false;
}

abbrev working : Round
working = record {
  env = env 3625000000;
  session_fails = false;
  publish_fails = false;
  ack_fails = false;
}

changes : (handle_one (env 3620000000) fail_event healthy_tables).0 ≡ some first_failure
unfolding handle_one process process_as apply_event own_job seen_event record_event on_finish
    write_finish single_start insert_single single_row store_tails store_tail last_chars attach_slot
    slot_for_start conclude refresh_next recompute_state recompute_row compute facts_of timeline
    open_late has_running recovered failures_since_success agent_offline derive legacy_status
    transition event_ts
changes = refl

deliveries-lost_example : deliveries fail_event (broken ∷ working ∷ []) healthy_tables ≡ []
deliveries-lost_example =
    deliveries-lost fail_event (given 6) broken (working ∷ []) first_failure healthy_tables refl
      changes refl refl

-- A start that comes again, under a new sequence number, with the instant of a run that has failed.
abbrev again : ExecEvent
again = record fail_event {
  kind = start;
  execution_id = some (given 5);
  sequence = 2;
  agent_ts = some 9000000;
  server_ts = some 9000000;
}

not_seen : seen_event (given 5) 2 tables ≡ false
unfolding seen_event
not_seen = refl
