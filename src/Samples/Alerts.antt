-- ===== src/Samples/Alerts.antt =====
-- Rules on the announcements of a small set of tables.
use jobwatch.Prelude.{◌≡◌, refl, true, false, none, some, [], ◌∷◌, ◌||◌}
use jobwatch.Status.{JobState, JobStatus, SlotState, UnknownReason, derive, legacy_status}
use jobwatch.Db.{Job, Db}
use jobwatch.JobState.{
  StatusEvent, recompute_state, recompute_row, compute, facts_of, timeline, open_late, has_running,
  recovered, failures_since_success, agent_offline,
}
use jobwatch.Rules.{
  Rule, JobCtx, Condition, on_late, condition_fires, condition_holds, suppressed_unknown,
  should_repeat,
}
use jobwatch.Rules.Silence.{fires, masked-silent}
use jobwatch.Rules.Repeats.{sends}
use jobwatch.Samples.{backup, slot_row, tables}

abbrev pub rule_on : Condition → Rule
rule_on condition = record {
  id = 30;
  condition = condition;
  scope = record {
    job_ids = none;
    tags = none;
    environment_ids = none;
    workspace_ids = none;
    team_ids = none;
  };
  count = none;
  channel_ids = 40 ∷ [];
  business_hours = none;
  repeat_interval_s = some 600;
}

abbrev pub context : JobCtx
context = record {
  id = 1;
  tags = [];
  environment_id = none;
  workspace_id = 50;
  team_id = none;
  consecutive_failures = 1;
  success_rate = none;
  sla_target = none;
}

-- The tables once the first slot is late, and what a pass announces then.
abbrev late_tables : Db
late_tables = record tables { expected_runs = slot_row 1 SlotState.late ∷ [] }

abbrev pub late_news : StatusEvent
late_news = record {
  org_id = 7;
  job_id = 1;
  execution_id = none;
  prev_status = JobStatus.failed;
  new_status = JobStatus.late;
  prev_state = some JobState.failing;
  new_state = some JobState.late;
  unknown_reason = none;
  consecutive_failures = 1;
}

late_announced : (recompute_state 1 7 3700000000 late_tables).0 ≡ some late_news
unfolding recompute_state recompute_row compute facts_of timeline open_late has_running recovered
    failures_since_success agent_offline derive legacy_status
late_announced = refl

late_fires : fires (rule_on on_late) context late_news ≡ true
unfolding condition_fires condition_holds suppressed_unknown
late_fires = refl

-- The same tables with the job paused.
abbrev resting : Job
resting = record backup { paused = true }

abbrev resting_tables : Db
resting_tables = record late_tables { jobs = resting ∷ [] }

abbrev resting_news : StatusEvent
resting_news = record late_news {
  new_status = JobStatus.paused;
  new_state = some JobState.unknown;
  unknown_reason = some UnknownReason.paused;
}

resting_announced : (recompute_state 1 7 3700000000 resting_tables).0 ≡ some resting_news
unfolding recompute_state recompute_row compute facts_of timeline open_late has_running recovered
    failures_since_success agent_offline derive legacy_status
resting_announced = refl

resting_masked :
    ((facts_of resting_tables resting 3700000000).paused
      || (facts_of resting_tables resting 3700000000).agent_offline)
    ≡ true
unfolding facts_of
resting_masked = refl

masked-silent_example : fires (rule_on on_late) context resting_news ≡ false
masked-silent_example =
    masked-silent (rule_on on_late) context 1 7 3700000000 resting_tables resting resting_news refl
      resting_masked resting_announced

sends-two : sends (some 600) none (0 ∷ 300000000 ∷ 600000000 ∷ 700000000 ∷ []) ≡ 0 ∷ 600000000 ∷ []
unfolding sends should_repeat
sends-two = refl
