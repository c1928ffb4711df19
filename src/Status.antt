-- ===== src/Status.antt =====
-- cronsentinel/states.py: the four states of a job, why a job is unknown, the states of a slot,
-- and the pure functions that derive a job's state and the nine-value status that the pages show.
pub mod Derive
pub mod Machine
use jobwatch.Prelude.{
  ℕ, ◌==◌, Bool, true, false, ◌&&◌, ◌||◌, not, Option, none, some, if◌then◌else◌, is_some,
}

pub data JobState : Type 0 where
  ok late failing unknown : JobState

pub data UnknownReason : Type 0 where
  no_schedule no_data_yet agent_offline paused : UnknownReason

pub data SlotState : Type 0 where
  pending running succeeded failed late missed skipped : SlotState

-- The values of the nine-value `job_status`, states.py's strings and state_machine.py's enum.
pub data JobStatus : Type 0 where
  unknown healthy running late missed failed timeout recovered paused : JobStatus

-- Equality of states, statuses and reasons, which the code compares as texts.
abbrev pub state_code : JobState → ℕ
state_code JobState.ok = 0
state_code JobState.late = 1
state_code JobState.failing = 2
state_code JobState.unknown = 3

abbrev pub status_code : JobStatus → ℕ
status_code JobStatus.unknown = 0
status_code JobStatus.healthy = 1
status_code JobStatus.running = 2
status_code JobStatus.late = 3
status_code JobStatus.missed = 4
status_code JobStatus.failed = 5
status_code JobStatus.timeout = 6
status_code JobStatus.recovered = 7
status_code JobStatus.paused = 8

abbrev pub reason_code : Option UnknownReason → ℕ
reason_code none = 0
reason_code (some UnknownReason.no_schedule) = 1
reason_code (some UnknownReason.no_data_yet) = 2
reason_code (some UnknownReason.agent_offline) = 3
reason_code (some UnknownReason.paused) = 4

abbrev pub eq_state : JobState → JobState → Bool
eq_state a b = state_code a == state_code b

abbrev pub eq_status : JobStatus → JobStatus → Bool
eq_status a b = status_code a == status_code b

abbrev pub eq_reason : Option UnknownReason → Option UnknownReason → Bool
eq_reason a b = reason_code a == reason_code b

-- TERMINAL
abbrev pub is_terminal : SlotState → Bool
is_terminal SlotState.succeeded = true
is_terminal SlotState.failed = true
is_terminal SlotState.missed = true
is_terminal SlotState.skipped = true
is_terminal _ = false

-- BAD_SLOTS, tested on an optional slot state
abbrev pub in_bad_slots : Option SlotState → Bool
in_bad_slots (some SlotState.failed) = true
in_bad_slots (some SlotState.missed) = true
in_bad_slots _ = false

abbrev pub is_succeeded : Option SlotState → Bool
is_succeeded (some SlotState.succeeded) = true
is_succeeded _ = false

-- ALERTABLE
abbrev pub is_alertable : JobState → Bool
is_alertable JobState.late = true
is_alertable JobState.failing = true
is_alertable _ = false

-- The keyword arguments of `derive`.
pub record Facts : Type 0 where
  pub paused : Bool
  pub has_schedule : Bool
  pub ever_ran : Bool
  pub agent_offline : Bool
  pub open_late : Bool
  pub running : Bool
  pub last_settled : Option SlotState

unfoldable pub derive : Facts → JobState × Option UnknownReason
derive f =
    if f.paused
    then (JobState.unknown, some UnknownReason.paused)
    else if f.agent_offline
    then (JobState.unknown, some UnknownReason.agent_offline)
    else if not f.has_schedule && not f.ever_ran
    then (JobState.unknown, some UnknownReason.no_schedule)
    else if not f.ever_ran && (not (is_some f.last_settled) && not f.open_late)
    then (JobState.unknown, some UnknownReason.no_data_yet)
    else if f.open_late
    then (JobState.late, none)
    else if in_bad_slots f.last_settled
    then (JobState.failing, none)
    else if is_succeeded f.last_settled || f.running
    then (JobState.ok, none)
    else (JobState.unknown, some UnknownReason.no_data_yet)

-- The dictionary lookup with its default, for a failing job.
abbrev pub failing_status : Option SlotState → JobStatus
failing_status (some SlotState.missed) = JobStatus.missed
failing_status (some SlotState.failed) = JobStatus.failed
failing_status _ = JobStatus.failed

-- The cases of `legacy_status` below the three tests on paused, unknown and running.
abbrev pub settled_status : JobState → Option SlotState → Bool → JobStatus
settled_status JobState.late last recovering = JobStatus.late
settled_status JobState.failing last recovering = failing_status last
settled_status _ last recovering = if recovering then JobStatus.recovered else JobStatus.healthy

abbrev pub is_unknown : JobState → Bool
is_unknown JobState.unknown = true
is_unknown _ = false

unfoldable pub legacy_status : JobState → Bool → Bool → Option SlotState → Bool → JobStatus
legacy_status state is_paused is_running last_settled recovering =
    if is_paused
    then JobStatus.paused
    else if is_unknown state
    then JobStatus.unknown
    else if is_running
    then JobStatus.running
    else settled_status state last_settled recovering
