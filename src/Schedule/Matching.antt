-- ===== src/Schedule/Matching.antt =====
-- `pick_slot` of schedule_engine.py chooses the nearest slot whose window holds the start.
use jobwatch.Prelude.{
  ℕ, ◌+◌, ◌≤◌, ◌<◌, ◌≡◌, ◌⊎◌, Bool, true, false, none, some, List, [], arith, Mem, keep_if-Mem,
  Mem-keep_if, least-Mem, least-none, least-low, IsStrict, subst,
}
use jobwatch.Schedule.{Slot, seconds, distance, nearer, in_window, pick_slot, match_window}

abbrev pub nearer_slot : ℕ → Slot → Slot → Bool
nearer_slot started_at a b = nearer started_at a.scheduled_for b.scheduled_for

pub nearer-IsStrict : (started_at : ℕ) → IsStrict (nearer_slot started_at)
nearer-IsStrict started_at = record {
  irreflexive = λ s. ground arith;
  transitive = λ a b c p q. ground arith;
}

-- The start lies in the slot's window: at most 90 seconds early, and not past the deadline.
abbrev pub Fits : ℕ → Slot → Type 0
Fits started_at s = (s.scheduled_for ≤ started_at + seconds 90) × (started_at ≤ s.deadline)

-- `a` is at least as near to the start as `b`, and the earlier one at the same distance.
abbrev pub AsNear : ℕ → ℕ → ℕ → Type 0
AsNear t a b = (distance t a < distance t b) ⊎ ((distance t a ≡ distance t b) × (a ≤ b))

pub in_window→Fits : (t : ℕ) (s : Slot) → in_window t s ≡ true → Fits t s
unfolding in_window match_window
in_window→Fits t s h = ground arith

pub Fits→in_window : (t : ℕ) (s : Slot) → Fits t s → in_window t s ≡ true
unfolding in_window match_window
Fits→in_window t s h = ground arith

pub nearer-AsNear : (t a b : ℕ) → nearer t b a ≡ false → AsNear t a b
nearer-AsNear t a b h = ground arith

-- The chosen slot is a candidate, the start lies in its window, and no other candidate with the start
-- in its window is nearer, or as near and earlier.
pub pick_slot_nearest :
    (slots : List Slot) (t : ℕ) (s : Slot)
    → pick_slot slots t ≡ some s
    → Mem s slots
      × Fits t s
      × ((r : Slot) → Mem r slots → Fits t r → AsNear t s.scheduled_for r.scheduled_for)
unfolding pick_slot
pick_slot_nearest slots t s h =
    let (mem, inside) = Mem-keep_if (in_window t) slots (least-Mem (nearer_slot t) _ h) in
    (
      mem,
      in_window→Fits t s inside,
      λ r m f. nearer-AsNear t s.scheduled_for r.scheduled_for (
          least-low (nearer_slot t) (nearer-IsStrict t) _ r h
            (keep_if-Mem (in_window t) slots m (Fits→in_window t r f))),
    )

not-Mem-nil : {s : Slot} → ¬ Mem s []
not-Mem-nil m = elim m [ ]

-- No slot is chosen exactly when the start lies in no candidate's window.
pub pick_slot-none :
    (slots : List Slot) (t : ℕ) (r : Slot) → pick_slot slots t ≡ none → Mem r slots → ¬ Fits t r
unfolding pick_slot
pick_slot-none slots t r h m f = not-Mem-nil (
    subst (λ l. Mem r l) (least-none (nearer_slot t) _ h)
      (keep_if-Mem (in_window t) slots m (Fits→in_window t r f)))
