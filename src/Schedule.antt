-- ===== src/Schedule.antt =====
-- cronsentinel/schedule.py and schedule_engine.py: the occurrences of a schedule, the slots that it
-- should produce, the window that is still to be generated, and the slot that a start belongs to.
-- Instants are microseconds (datetime's resolution) since the earliest datetime, so `-` on ℕ stops
-- where Python would raise OverflowError.
pub mod Slots
pub mod Matching
pub mod Windows
use Prim.Native.String.{String}
use jobwatch.Prelude.{
  ℕ, zero, suc, ◌+◌, ◌-◌, ◌*◌, max, Bool, true, false, ◌&&◌, ◌||◌, Option, none, some, List, [],
  ◌∷◌, ltb, leb, ◌==◌, if◌then◌else◌, truthy, coalesce, keep_if, least,
}

-- `croniter(expr, after in the zone tz).get_next()`, as UTC: the third-party parser and iterator.
-- `none` is an exception: a bad expression, an unknown zone, or no further date.
pub record Cron : Type 0 where
  pub get_next : String → String → ℕ → Option ℕ

-- timedelta(seconds=n)
abbrev pub seconds : ℕ → ℕ
seconds n = n * 1000000

-- timedelta(hours=6), timedelta(days=2)
abbrev pub horizon : ℕ
horizon = seconds 21600

abbrev pub backfill_limit : ℕ
backfill_limit = seconds 172800

abbrev pub max_slots_per_job : ℕ
max_slots_per_job = 2000

pub record Slot : Type 0 where
  pub scheduled_for : ℕ
  pub grace_until : ℕ
  pub deadline : ℕ

-- `expected_runtime_s or grace_s`: a runtime of 0 counts as none.
abbrev pub runtime_or_grace : Option ℕ → ℕ → ℕ
runtime_or_grace none grace_s = grace_s
runtime_or_grace (some runtime) grace_s = if truthy runtime then runtime else grace_s

unfoldable pub deadline_for : ℕ → ℕ → Option ℕ → ℕ
deadline_for scheduled_for grace_s expected_runtime_s =
    scheduled_for + seconds (grace_s + runtime_or_grace expected_runtime_s grace_s)

unfoldable pub slot_at : ℕ → Option ℕ → ℕ → Slot
slot_at grace_s expected_runtime_s ts = record {
  scheduled_for = ts;
  grace_until = ts + seconds grace_s;
  deadline = deadline_for ts grace_s expected_runtime_s;
}

abbrev pub cons_to {ℓ} : {A : Type ℓ} → A → Option (List A) → Option (List A)
cons_to x none = none
cons_to x (some xs) = some (x ∷ xs)

module _ (cron : Cron) (expr tz : String) where
  -- [next(runs) for _ in range(n)], over the lazy stream `iter_runs`.
  unfoldable pub next_runs : ℕ → ℕ → Option (List ℕ)
  next_runs zero after = some []
  next_runs (suc n) after = elim (cron.get_next expr tz after) [
    | none ↦ none
    | some ts ↦ cons_to ts (next_runs n ts)
  ]

  unfoldable pub next_run : ℕ → Option ℕ
  next_run after = elim (next_runs 1 after) [
    | none ↦ none
    | some [] ↦ none
    | some (ts ∷ _) ↦ some ts
  ]

  module _ (end grace_s : ℕ) (expected_runtime_s : Option ℕ) where
    -- The `for ts in iter_runs(...)` loop, by recursion on the room left below `limit`. The stream is
    -- advanced before the test, also when there is no room.
    unfoldable pub slots_loop : ℕ → ℕ → Option (List Slot)
    slots_loop zero after = elim (cron.get_next expr tz after) [ none ↦ none | some ts ↦ some [] ]
    slots_loop (suc room) after = elim (cron.get_next expr tz after) [
      | none ↦ none
      | some ts ↦
          let rest = cons_to (slot_at grace_s expected_runtime_s ts) (slots_loop room ts) in
          if ltb end ts then some [] else rest
    ]

  unfoldable pub slots_between : ℕ → ℕ → ℕ → Option ℕ → ℕ → Option (List Slot)
  unfolding slots_loop
  slots_between start end grace_s expected_runtime_s limit =
      if leb end start then some [] else slots_loop end grace_s expected_runtime_s limit start

-- (start, end) of what is still to be generated.
unfoldable pub generation_window : Option ℕ → ℕ → ℕ → ℕ × ℕ
generation_window generated_through created_at now =
    (max (coalesce generated_through created_at) (now - backfill_limit), now + horizon)

unfoldable pub match_window : Slot → ℕ × ℕ
match_window slot = (slot.scheduled_for - seconds 90, slot.deadline)

abbrev pub distance : ℕ → ℕ → ℕ
distance a b = if leb a b then b - a else a - b

-- The key (distance of the start, scheduled_for), compared as Python compares tuples.
abbrev pub nearer : ℕ → ℕ → ℕ → Bool
nearer started_at a b =
    ltb (distance started_at a) (distance started_at b)
    || (distance started_at a == distance started_at b && ltb a b)

unfoldable pub in_window : ℕ → Slot → Bool
unfolding match_window
in_window started_at s =
    let (from, until) = match_window s in leb from started_at && leb started_at until

unfoldable pub pick_slot : List Slot → ℕ → Option Slot
unfolding least
pick_slot slots started_at =
    least (λ a b. nearer started_at a.scheduled_for b.scheduled_for)
      (keep_if (in_window started_at) slots)
