-- ===== src/Reconciler/Outage.antt =====
-- A tick of reconciler.py that comes late: "an outage of this worker delays detection but never loses it".
use jobwatch.Prelude.{
  ℕ, ◌≤◌, ◌≡◌, inl, inr, refl, sym, ap, ◌∙◌, subst, Bool, true, false, ◌&&◌, List, map, arith,
  Bool-cases, Mem, head, tail, update_if, ltb, if◌then◌else◌,
}
use jobwatch.Status.{SlotState}
use jobwatch.Db.{ExpectedRun, Db}
use jobwatch.Reconciler.{
  excused, is_running_slot, unbound, settle_slots, settle_as, to_skip, to_late, to_miss,
  to_time_out, mark_late, settle_maintenance, mark_slots_late, mark_missed, mark_timeouts,
}
use jobwatch.Reconciler.Rows.{settled_row, settle_slots-runs}

settle_slots-excused :
    (now : ℕ) (db : Db) (r : ExpectedRun) → excused (settle_slots now db) r ≡ excused db r
unfolding settle_slots settle_maintenance mark_slots_late mark_missed mark_timeouts excused
settle_slots-excused now db r = refl

map-Mem-at :
    (f : ExpectedRun → ExpectedRun) {r : ExpectedRun} {xs : List ExpectedRun}
    → Mem r xs
    → Mem (f r) (map f xs)
map-Mem-at f head = head
map-Mem-at f (tail m) = tail (map-Mem-at f m)

settled_row-id : (db : Db) (now : ℕ) (r : ExpectedRun) → (settled_row db now r).id ≡ r.id
unfolding settled_row
settled_row-id db now r = ground arith

pub settle_slots-row :
    (now : ℕ) (db : Db) {r : ExpectedRun}
    → Mem r db.expected_runs
    → Mem (settled_row db now r) (settle_slots now db).expected_runs
settle_slots-row now db {r} m =
    subst (λ l. Mem (settled_row db now r) l) (sym (settle_slots-runs now db))
      (map-Mem-at (settled_row db now) m)

-- The state of an unbound slot after a tick, from its excuse, its state, its grace and its deadline.
abbrev pub settled_state : Bool → SlotState → ℕ → ℕ → ℕ → SlotState
settled_state ex SlotState.pending g d now =
    if ltb g now && ex
    then SlotState.skipped
    else if ltb d now
    then SlotState.missed
    else if ltb g now
    then SlotState.late
    else SlotState.pending
settled_state ex SlotState.late g d now =
    if ltb g now && ex
    then SlotState.skipped
    else if ltb d now
    then SlotState.missed
    else SlotState.late
settled_state ex s g d now = s

settled_row-state :
    (db : Db) (now : ℕ) (r : ExpectedRun)
    → unbound r ≡ true
    → is_running_slot r.state ≡ false
    → (settled_row db now r).state
      ≡ settled_state (excused db r) r.state r.grace_until r.deadline now
unfolding settled_row to_skip to_late to_miss to_time_out
settled_row-state db now r free idle = ground arith

settled_row-frame :
    (db : Db) (now : ℕ) (r : ExpectedRun)
    → (unbound (settled_row db now r) ≡ unbound r)
      × ((settled_row db now r).grace_until ≡ r.grace_until)
      × ((settled_row db now r).deadline ≡ r.deadline)
unfolding settled_row
settled_row-frame db now r = (ground arith, ground arith, ground arith)

settled_state-twice :
    (ex : Bool) (s : SlotState) (g d early now : ℕ)
    → early ≤ now
    → g ≤ d
    → settled_state ex (settled_state ex s g d early) g d now ≡ settled_state ex s g d now
settled_state-twice ex SlotState.pending g d early now le order = ground arith
settled_state-twice ex SlotState.late g d early now le order = ground arith
settled_state-twice ex SlotState.running g d early now le order = refl
settled_state-twice ex SlotState.succeeded g d early now le order = refl
settled_state-twice ex SlotState.failed g d early now le order = refl
settled_state-twice ex SlotState.missed g d early now le order = refl
settled_state-twice ex SlotState.skipped g d early now le order = refl

update_if-excused :
    (db : Db) (p : ExpectedRun → Bool) (f : ExpectedRun → ExpectedRun) (r : ExpectedRun)
    → ((x : ExpectedRun) → excused db (f x) ≡ excused db x)
    → excused db (update_if p f r) ≡ excused db r
update_if-excused db p f r keep = elim (Bool-cases (p r)) [
  | inl t ↦ rw t (keep r)
  | inr n ↦ rw n refl
]

settle_as-excused :
    (db : Db) (s : SlotState) (now : ℕ) (x : ExpectedRun)
    → excused db (settle_as s now x) ≡ excused db x
unfolding excused
settle_as-excused db s now x = refl

mark_late-excused : (db : Db) (x : ExpectedRun) → excused db (mark_late x) ≡ excused db x
unfolding excused
mark_late-excused db x = refl

settled_row-excused :
    (db : Db) (now : ℕ) (r : ExpectedRun) → excused db (settled_row db now r) ≡ excused db r
unfolding settled_row
settled_row-excused db now r =
    update_if-excused db (to_time_out db now) (settle_as SlotState.failed now) _
      (settle_as-excused db _ now)
    ∙ update_if-excused db (to_miss now) (settle_as SlotState.missed now) _
        (settle_as-excused db _ now)
    ∙ update_if-excused db (to_late now) mark_late _ (mark_late-excused db)
    ∙ update_if-excused db (to_skip db now) (settle_as SlotState.skipped now) _
        (settle_as-excused db _ now)

settled_state-idle :
    (ex : Bool) (s : SlotState) (g d now : ℕ)
    → is_running_slot s ≡ false
    → is_running_slot (settled_state ex s g d now) ≡ false
settled_state-idle ex SlotState.pending g d now idle = ground arith
settled_state-idle ex SlotState.late g d now idle = ground arith
settled_state-idle ex SlotState.running g d now idle = idle
settled_state-idle ex SlotState.succeeded g d now idle = idle
settled_state-idle ex SlotState.failed g d now idle = idle
settled_state-idle ex SlotState.missed g d now idle = idle
settled_state-idle ex SlotState.skipped g d now idle = idle

settled_row-idle :
    (db : Db) (now : ℕ) (r : ExpectedRun)
    → unbound r ≡ true
    → is_running_slot r.state ≡ false
    → is_running_slot (settled_row db now r).state ≡ false
settled_row-idle db now r free idle =
    ap is_running_slot (settled_row-state db now r free idle)
    ∙ settled_state-idle (excused db r) r.state r.grace_until r.deadline now idle

-- A slot that nothing has started on and whose grace is not after its deadline is in one state, whether a
-- tick ran in between or the first tick to see it comes late: an outage delays and does not lose it.
pub settle_slots-outage :
    (early now : ℕ) (db : Db) (r : ExpectedRun)
    → early ≤ now
    → Mem r db.expected_runs
    → unbound r ≡ true
    → is_running_slot r.state ≡ false
    → r.grace_until ≤ r.deadline
    → (twice : ExpectedRun) × (once : ExpectedRun) × Mem twice
        (settle_slots now (settle_slots early db)).expected_runs
      × Mem once (settle_slots now db).expected_runs
      × (twice.id ≡ r.id)
      × (once.id ≡ r.id)
      × (twice.state ≡ once.state)
settle_slots-outage early now db r le m free idle order =
    let first = settled_row db early r in
    let again = settle_slots early db in
    let (f, g, d) = settled_row-frame db early r in
    (
      settled_row again now first,
      settled_row db now r,
      settle_slots-row now again (settle_slots-row early db m),
      settle_slots-row now db m,
      settled_row-id again now first ∙ settled_row-id db early r,
      settled_row-id db now r,
      settled_row-state again now first (f ∙ free) (settled_row-idle db early r free idle)
          ∙ ap (λ ex. settled_state ex first.state first.grace_until first.deadline now)
              (settle_slots-excused early db first ∙ settled_row-excused db early r)
          ∙ ap (λ g. settled_state (excused db r) first.state g first.deadline now) g
          ∙ ap (λ d. settled_state (excused db r) first.state r.grace_until d now) d
          ∙ ap (λ s. settled_state (excused db r) s r.grace_until r.deadline now)
              (settled_row-state db early r free idle)
          ∙ settled_state-twice (excused db r) r.state r.grace_until r.deadline early now le order
          ∙ sym (settled_row-state db now r free idle),
    )
