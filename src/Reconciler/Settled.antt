-- ===== src/Reconciler/Settled.antt =====
-- What one tick of reconciler.py makes of each slot.
use jobwatch.Prelude.{ℕ, ◌≤◌, ◌<◌, ◌≡◌, ◌⊎◌, true, false, any_of}
use jobwatch.Status.{SlotState, is_terminal}
use jobwatch.Db.{ExpectedRun, Db}
use jobwatch.Reconciler.{excused, is_waiting, is_pending, is_running_slot, unbound, runs_slot}

-- A slot before and after a tick. A settled slot is left alone; a slot that nothing has started on is not
-- past its deadline while it waits, nor past its grace while it is pending; and each new state has its
-- reason.
pub record Settles (db : Db) (now : ℕ) (r r' : ExpectedRun) : Type 0 where
  pub terminal_kept : is_terminal r.state ≡ true → r' ≡ r
  pub in_time : is_waiting r'.state ≡ true → unbound r' ≡ true → now ≤ r'.deadline
  pub in_grace :
      is_pending r'.state ≡ true → unbound r' ≡ true → (now ≤ r'.grace_until) ⊎ (r'.deadline < now)
  pub skipped_reason :
      r'.state ≡ SlotState.skipped
      → (r.state ≡ SlotState.skipped) ⊎ ((excused db r ≡ true) × (r.grace_until < now))
  pub missed_reason :
      r'.state ≡ SlotState.missed
      → (r.state ≡ SlotState.missed)
        ⊎ ((r.deadline < now) × (unbound r ≡ true) × (is_waiting r.state ≡ true))
  pub late_reason :
      r'.state ≡ SlotState.late
      → (r.state ≡ SlotState.late) ⊎ ((r.grace_until < now) × (excused db r ≡ false))
  pub excused_safe :
      excused db r ≡ true
      → r.grace_until < now
      → is_waiting r.state ≡ true
      → unbound r ≡ true
      → r'.state ≡ SlotState.skipped
  pub overrun_fails :
      is_running_slot r.state ≡ true
      → r.deadline < now
      → any_of (runs_slot r) db.executions ≡ true
      → r'.state ≡ SlotState.failed
