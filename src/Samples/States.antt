-- ===== src/Samples/States.antt =====
-- Statuses and states on small inputs.
use jobwatch.Prelude.{◌≡◌, refl}
use jobwatch.Status.{JobState, derive}
use jobwatch.Samples.{late_facts, paused_facts, failing_facts}

derive-late_facts :
    ((derive late_facts).0 ≡ JobState.late)
    × ((derive paused_facts).0 ≡ JobState.unknown)
    × ((derive failing_facts).0 ≡ JobState.failing)
unfolding derive
derive-late_facts = (refl, refl, refl)
