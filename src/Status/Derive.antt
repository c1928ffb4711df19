-- ===== src/Status/Derive.antt =====
-- What `derive` and `legacy_status` of states.py promise.
use jobwatch.Prelude.{◌≡◌, ◌≢◌, ◌↔◌, ◌⊎◌, Bool, true, false, ◌||◌, arith, is_some}
use jobwatch.Status.{
  JobState, JobStatus, Facts, derive, legacy_status, in_bad_slots, is_alertable, is_unknown,
}

-- A reason is given exactly for the unknown state.
pub derive_reason_iff : (f : Facts) → is_some (derive f).1 ≡ is_unknown (derive f).0
unfolding derive
derive_reason_iff f = ground arith

-- Nothing but the state itself says that a job is paused or that its agent is offline: no late or
-- bad slot shows through.
pub derive-unknown_masks :
    (f : Facts)
    → (f.paused || f.agent_offline) ≡ true
    → ((derive f).0 ≡ JobState.unknown) × (is_alertable (derive f).0 ≡ false)
unfolding derive
derive-unknown_masks f h = ground arith

-- What must hold of a job that is late, and of one that is failing.
pub record IsVisible (f : Facts) : Type 0 where
  pub active : f.paused ≡ false
  pub heard : f.agent_offline ≡ false
  pub scheduled : (f.has_schedule || f.ever_ran) ≡ true

-- Late: visible, and a slot of the job is late.
pub derive-late_iff :
    (f : Facts) → ((derive f).0 ≡ JobState.late) ↔ (IsVisible f × (f.open_late ≡ true))
unfolding derive
derive-late_iff f = (
  λ h. (
    record { active = ground arith; heard = ground arith; scheduled = ground arith },
    ground arith,
  ),
  λ h. ground arith,
)

-- Failing: visible, no slot of the job is late, and the last outcome is bad.
pub derive-failing_iff :
    (f : Facts)
    → ((derive f).0 ≡ JobState.failing)
      ↔ (IsVisible f × (f.open_late ≡ false) × (in_bad_slots f.last_settled ≡ true))
unfolding derive
derive-failing_iff f = (
  λ h. (
    record { active = ground arith; heard = ground arith; scheduled = ground arith },
    ground arith,
    ground arith,
  ),
  λ h. ground arith,
)

-- The status that goes with the derived state.
unfoldable pub shown_status : Facts → Bool → JobStatus
shown_status f recovering = legacy_status (derive f).0 f.paused f.running f.last_settled recovering

-- The nine-value status and the four-state agree, and a run in progress is all that hides a late or
-- failing state.
pub record Agrees (f : Facts) (shown : JobStatus) : Type 0 where
  pub paused_iff : (shown ≡ JobStatus.paused) ↔ (f.paused ≡ true)
  pub never_timeout : shown ≢ JobStatus.timeout
  pub late_state : shown ≡ JobStatus.late → (derive f).0 ≡ JobState.late
  pub failed_state : shown ≡ JobStatus.failed → (derive f).0 ≡ JobState.failing
  pub missed_state : shown ≡ JobStatus.missed → (derive f).0 ≡ JobState.failing
  pub healthy_state : shown ≡ JobStatus.healthy → (derive f).0 ≡ JobState.ok
  pub recovered_state : shown ≡ JobStatus.recovered → (derive f).0 ≡ JobState.ok
  pub running_flag : shown ≡ JobStatus.running → f.running ≡ true
  pub alertable_shown :
      is_alertable (derive f).0 ≡ true
      → f.running ≡ false
      → (shown ≡ JobStatus.late) ⊎ (shown ≡ JobStatus.failed) ⊎ (shown ≡ JobStatus.missed)

-- The status that goes with a state agrees with it, as `Agrees` says: it is never timeout, each bad, late or
-- healthy status has its state, and only a run in progress hides a late or failing state.
pub legacy_status-Agrees : (f : Facts) (recovering : Bool) → Agrees f (shown_status f recovering)
unfolding shown_status legacy_status derive
legacy_status-Agrees f recovering = record {
  paused_iff = (λ h. ground arith, λ h. ground arith);
  never_timeout = λ h. ground arith;
  late_state = λ h. ground arith;
  failed_state = λ h. ground arith;
  missed_state = λ h. ground arith;
  healthy_state = λ h. ground arith;
  recovered_state = λ h. ground arith;
  running_flag = λ h. ground arith;
  alertable_shown = λ h k. ground arith;
}
