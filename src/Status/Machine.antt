-- ===== src/Status/Machine.antt =====
-- cronsentinel/state_machine.py: the transitions of the nine-value status.
pub mod Traces
use jobwatch.Prelude.{Bool, true, false, ◌&&◌, ◌||◌, if◌then◌else◌}
use jobwatch.Status.{JobStatus}

pub data Event : Type 0 where
  schedule_set started completed_ok completed_fail runtime_exceeded : Event
  grace_expired grace_expired_2x pause resume : Event

-- _BAD
abbrev pub in_bad : JobStatus → Bool
in_bad JobStatus.failed = true
in_bad JobStatus.timeout = true
in_bad JobStatus.missed = true
in_bad _ = false

abbrev pub is_late : JobStatus → Bool
is_late JobStatus.late = true
is_late _ = false

-- The statuses from which an expired grace makes a job late.
abbrev pub can_be_late : JobStatus → Bool
can_be_late JobStatus.healthy = true
can_be_late JobStatus.recovered = true
can_be_late JobStatus.unknown = true
can_be_late _ = false

-- `transition` below its first test: `current` is not paused.
abbrev pub transition_active : JobStatus → Event → JobStatus
transition_active current pause = JobStatus.paused
transition_active JobStatus.unknown schedule_set = JobStatus.healthy
transition_active current started = JobStatus.running
transition_active current completed_ok =
    if in_bad current || is_late current then JobStatus.recovered else JobStatus.healthy
transition_active current completed_fail = JobStatus.failed
transition_active JobStatus.running runtime_exceeded = JobStatus.timeout
transition_active current grace_expired = if can_be_late current then JobStatus.late else current
transition_active JobStatus.late grace_expired_2x = JobStatus.missed
transition_active current event = current

unfoldable pub transition : JobStatus → Event → JobStatus
transition JobStatus.paused resume = JobStatus.unknown
transition JobStatus.paused event = JobStatus.paused
transition current event = transition_active current event

abbrev pub is_recovered : JobStatus → Bool
is_recovered JobStatus.recovered = true
is_recovered _ = false

unfoldable pub is_recovery : JobStatus → JobStatus → Bool
is_recovery previous new = is_recovered new && (in_bad previous || is_late previous)
