-- ===== src/Schedule/Slots/Resume.antt =====
-- Generation resumes where it stopped: windows that follow one another lose no slot and repeat none.
use Prim.Native.String.{String}
use jobwatch.Prelude.{
  ℕ, zero, suc, ◌+◌, ◌≤◌, ◌<◌, ◌≡◌, ap, subst, ◌∙◌, Option, some, List, ◌∷◌, ◌++◌, arith, length,
}
use jobwatch.Schedule.{Cron, Slot, slot_at, slots_loop, slots_between}
use jobwatch.Schedule.Slots.{full, past, more, round}

-- Documented of croniter: it gives the first occurrence after an instant, so a later start that is
-- still before that occurrence gives the same one.
pub record IsFirst (cron : Cron) : Type 0 where
  pub first :
      (expr tz : String) (after start ts : ℕ)
      → cron.get_next expr tz after ≡ some ts
      → after ≤ start
      → start < ts
      → cron.get_next expr tz start ≡ some ts

module _ (cron : Cron) (is_first : IsFirst cron) (expr tz : String) (grace_s : ℕ)
    (runtime : Option ℕ) (middle end : ℕ) where
  abbrev upto : ℕ → ℕ → ℕ → Option (List Slot)
  upto last = slots_loop cron expr tz last grace_s runtime

  -- The same next occurrence, hence the same slots.
  loop-eq_of_next :
      (room after start ts : ℕ)
      → cron.get_next expr tz after ≡ some ts
      → cron.get_next expr tz start ≡ some ts
      → upto end room after ≡ upto end room start
  unfolding slots_loop
  loop-eq_of_next zero after start ts e f = ground arith
  loop-eq_of_next (suc room) after start ts e f = ground arith

  loop-append :
      (room after more_room : ℕ) (xs ys : List Slot)
      → after ≤ middle
      → middle ≤ end
      → upto middle room after ≡ some xs
      → length xs < room
      → upto end more_room middle ≡ some ys
      → upto end (length xs + more_room) after ≡ some (xs ++ ys)
  unfolding slots_loop
  loop-append zero after more_room xs ys le le' h l h' = absurd (omega arith)
  loop-append (suc room) after more_room xs ys le le' h l h' =
      elim (round cron expr tz middle grace_s runtime (suc room) after xs h) [
        | full ts e r _ ↦ absurd (omega arith)
        | past ts e far nil ↦ rw nil (
            let start : upto end more_room after ≡ upto end more_room middle =
              loop-eq_of_next more_room after middle ts e
                (is_first.first expr tz after middle ts e le far) in
            let z : more_room ≡ 0 + more_room = omega arith in
            subst (λ n. upto end n after ≡ some ys) z (start ∙ h'))
        | more ts room' rest e near r h'' eq ↦ rw eq (
            let same : room' ≡ room = omega arith in
            let further =
              loop-append room ts more_room rest ys near le' (rw same at h'')
                (omega (arith, ap (length {A = Slot}) eq)) h' in
            let z : suc (length rest + more_room) ≡ suc (length rest) + more_room = omega arith in
            subst (λ n. upto end n after ≡ some (slot_at grace_s runtime ts ∷ (rest ++ ys))) z
              (ground (arith, further)))
      ]

  -- Two windows, one after the other, hold together what the window from the start of the first to
  -- the end of the second holds.
  pub slots_between-append :
      (start limit limit' : ℕ) (xs ys : List Slot)
      → start < middle
      → middle < end
      → slots_between cron expr tz start middle grace_s runtime limit ≡ some xs
      → length xs < limit
      → slots_between cron expr tz middle end grace_s runtime limit' ≡ some ys
      → slots_between cron expr tz start end grace_s runtime (length xs + limit') ≡ some (xs ++ ys)
  unfolding slots_between
  slots_between-append start limit limit' xs ys l l' h short h' =
      ground (arith, loop-append limit start limit' xs ys)
