-- ===== src/Schedule/Windows.antt =====
-- `generation_window` of schedule_engine.py over successive passes of the generator.
use Prim.Native.String.{String}
use jobwatch.Prelude.{ℕ, ◌+◌, ◌≤◌, ◌<◌, ◌≡◌, Option, some, List, ◌++◌, arith, length, subst}
use jobwatch.Schedule.{Cron, Slot, slots_between, generation_window, horizon, backfill_limit}
use jobwatch.Schedule.Slots.Resume.{IsFirst, slots_between-append}

-- The window starts at most the backfill limit ago, and ends one horizon ahead.
generation_window_bounds :
    (generated : Option ℕ) (created now : ℕ)
    → (now ≤ (generation_window generated created now).0 + backfill_limit)
      × ((generation_window generated created now).1 ≡ now + horizon)
unfolding generation_window
generation_window_bounds generated created now = ground arith

-- The next window starts where the last one ended, unless the generator was away too long.
window_resumes :
    (created now now' : ℕ)
    → now' ≤ now + horizon + backfill_limit
    → (generation_window (some (now + horizon)) created now').0 ≡ now + horizon
unfolding generation_window
window_resumes created now now' h = ground arith

module _ (cron : Cron) (is_first : IsFirst cron) (expr tz : String) (grace_s : ℕ)
    (runtime : Option ℕ) where
  -- What a pass at `now` generates with at most `limit` slots.
  abbrev pass : Option ℕ → ℕ → ℕ → ℕ → Option (List Slot)
  pass generated created now limit =
      let (start, end) = generation_window generated created now in
      slots_between cron expr tz start end grace_s runtime limit

  -- A pass that kept below its limit, and a later one that resumes from it, generate what one pass
  -- over both windows would, whatever outage up to the backfill limit lies between them.
  pub passes-append :
      (generated : Option ℕ) (created now now' limit limit' : ℕ) (xs ys : List Slot)
      → now < now'
      → now' ≤ now + horizon + backfill_limit
      → (generation_window generated created now).0 < now + horizon
      → pass generated created now limit ≡ some xs
      → length xs < limit
      → pass (some (now + horizon)) created now' limit' ≡ some ys
      → slots_between cron expr tz
          (generation_window generated created now).0
          (now' + horizon)
          grace_s
          runtime
          (length xs + limit')
        ≡ some (xs ++ ys)
  unfolding generation_window
  passes-append generated created now now' limit limit' xs ys l l' ahead h short h' =
      slots_between-append cron is_first expr tz grace_s runtime (now + horizon) (now' + horizon)
        (generation_window generated created now).0 limit limit' xs ys ahead (omega arith) h short
        (subst (λ m. slots_between cron expr tz m (now' + horizon) grace_s runtime limit' ≡ some ys)
          (window_resumes created now now' l') h')
