-- ===== src/Samples/Posts.antt =====
-- A signal whose destination is down for all tries.
use jobwatch.Prelude.{ℕ, ◌+◌, ◌≤◌, ◌≡◌, refl, true, false, Option, some, [], ◌∷◌, arith, All}
use jobwatch.Delivery.{Target, webhook, Outbox, run_task, deliver_signal, record_try, conclude_try}
use jobwatch.Delivery.Counts.{IsLive, failures_of, run_task-counts}

abbrev target : Target
target = record { id = 1; org_id = 7; kind = webhook; enabled = true; consecutive_failures = 19 }

abbrev outbox : Outbox
outbox = record { targets = target ∷ []; deliveries = [] }

abbrev down : ℕ → Option ℕ
down n = some 503

target-IsLive : IsLive target
target-IsLive on = omega arith

run_task-counts_example :
    All IsLive (run_task 6 0 7 1 100 down outbox).targets
    × (failures_of 1 (run_task 6 0 7 1 100 down outbox) ≤ failures_of 1 outbox + 1)
run_task-counts_example =
    run_task-counts 6 0 7 1 100 1 down outbox (omega arith) (target-IsLive, tt)

-- The twentieth dead signal in a row turns the destination off.
run_task-off :
    (run_task 6 0 7 1 100 down outbox).targets
    ≡ record target { enabled = false; consecutive_failures = 20 } ∷ []
unfolding run_task deliver_signal record_try conclude_try
run_task-off = refl
