-- ===== src/Samples/Schedules.antt =====
-- Slots of an hourly schedule.
use Prim.Native.String.{String}
use jobwatch.Prelude.{
  ℕ, ◌+◌, ◌≤◌, ◌≡◌, ◌↔◌, refl, ap, some, some-injective, List, [], ◌∷◌, arith, Mem,
}
use jobwatch.Schedule.{
  Slot, slot_at, deadline_for, slots_loop, slots_between, next_runs, pick_slot, in_window,
  match_window,
}
use jobwatch.Schedule.Slots.{IsForward, Occurs}
use jobwatch.Schedule.Slots.Complete.{instants, slots_between_complete}
use jobwatch.Schedule.Slots.Resume.{IsFirst}
use jobwatch.Samples.{hourly}

hourly-IsForward : IsForward hourly
hourly-IsForward = record {
  later = λ expr tz after ts h. let e = some-injective _ _ h in omega arith;
}

hourly-IsFirst : IsFirst hourly
hourly-IsFirst = record {
  first = λ expr tz after start ts h le lt. let e = some-injective _ _ h in ap some (omega arith);
}

-- The slots on the hour `n`, with a grace of a minute and a runtime of two.
abbrev slot : ℕ → Slot
slot n = record { scheduled_for = n; grace_until = n + 60000000; deadline = n + 180000000 }

abbrev two : List Slot
two = slot 3600000000 ∷ slot 7200000000 ∷ []

abbrev cron_text : String
cron_text = "0 * * * *"

abbrev utc : String
utc = "UTC"

slots_between-two : slots_between hourly cron_text utc 0 8000000000 60 (some 120) 2000 ≡ some two
unfolding slots_between slots_loop slot_at deadline_for
slots_between-two = refl

slots_between_complete_example :
    Mem 7200000000 (instants two)
    ↔ (Occurs hourly cron_text utc 7200000000 0 × (7200000000 ≤ 8000000000))
slots_between_complete_example =
    slots_between_complete hourly cron_text utc hourly-IsForward 8000000000 60 (some 120) 0 2000
      7200000000 two slots_between-two (omega arith)

three_runs : next_runs hourly cron_text utc 3 0 ≡ some (3600000000 ∷ 7200000000 ∷ 10800000000 ∷ [])
unfolding next_runs
three_runs = refl

slots_between_first :
    slots_between hourly cron_text utc 0 4000000000 60 (some 120) 2000 ≡ some (slot 3600000000 ∷ [])
unfolding slots_between slots_loop slot_at deadline_for
slots_between_first = refl

slots_between_second :
    slots_between hourly cron_text utc 4000000000 8000000000 60 (some 120) 1999
    ≡ some (slot 7200000000 ∷ [])
unfolding slots_between slots_loop slot_at deadline_for
slots_between_second = refl

picked : pick_slot two 3610000000 ≡ some (slot 3600000000)
unfolding pick_slot in_window match_window
picked = refl
