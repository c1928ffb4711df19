-- ===== src/Reconciler/Rows.antt =====
-- The four statements of reconciler.py, one slot at a time.
use mathlib.Core.Path.{fun_ext}
use jobwatch.Prelude.{
  ℕ, ◌≡◌, inl, inr, refl, ap, ◌∙◌, Bool, ◌&&◌, ◌||◌, List, [], ◌∷◌, ◌++◌, map, arith, Bool-cases,
  any_of, update_where, update_if, keep_if, ltb,
}
use jobwatch.Status.{SlotState}
use jobwatch.Db.{ExpectedRun, Execution, Db}
use jobwatch.Reconciler.{
  to_skip, to_late, to_miss, to_time_out, runs_slot, settle_as, mark_late, settle_maintenance,
  mark_slots_late, mark_missed, settle_slots, insert_missed, insert_execution, missed_row, same_key,
  is_running_slot,
}

-- What the four statements make of one row.
unfoldable pub settled_row : Db → ℕ → ExpectedRun → ExpectedRun
unfolding to_skip to_late to_miss to_time_out
settled_row db now r =
    let skipped = update_if (to_skip db now) (settle_as SlotState.skipped now) r in
    let late = update_if (to_late now) mark_late skipped in
    let missed = update_if (to_miss now) (settle_as SlotState.missed now) late in
    update_if (to_time_out db now) (settle_as SlotState.failed now) missed

update_where_four :
    (p q r s : ExpectedRun → Bool) (f g h k : ExpectedRun → ExpectedRun) (xs : List ExpectedRun)
    → update_where s k (update_where r h (update_where q g (update_where p f xs)))
      ≡ map (λ x. update_if s k (update_if r h (update_if q g (update_if p f x)))) xs
update_where_four p q r s f g h k [] = refl
update_where_four p q r s f g h k (x ∷ xs) =
    ap (λ l. update_if s k (update_if r h (update_if q g (update_if p f x))) ∷ l)
      (update_where_four p q r s f g h k xs)

any_of-append :
    (p : Execution → Bool) (xs ys : List Execution)
    → any_of p (xs ++ ys) ≡ (any_of p xs || any_of p ys)
any_of-append p [] ys = refl
any_of-append p (x ∷ xs) ys = rw (any_of-append p xs ys) (ground arith)

-- A missed execution is no running one, so the joins with running executions do not see it.
insert_missed-running :
    (now : ℕ) (r : ExpectedRun) (rs : List ExpectedRun) (es : List Execution)
    → any_of (runs_slot r) (insert_missed now rs es) ≡ any_of (runs_slot r) es
unfolding insert_missed
insert_missed-running now r [] es = refl
insert_missed-running now r (x ∷ rs) es =
    insert_missed-running now r rs (insert_execution (missed_row now x) es)
    ∙ elim (Bool-cases (any_of (λ d. same_key d (missed_row now x)) es)) [
      | inl old ↦ rw old
      | inr new ↦ rw new (rw any_of-append (ground arith))
    ]

pub to_time_out-missed :
    (now : ℕ) (db : Db) → to_time_out (mark_missed now db) now ≡ to_time_out db now
unfolding to_time_out mark_missed
to_time_out-missed now db = fun_ext λ r.
    ap (λ b. (is_running_slot r.state && ltb r.deadline now) && b)
      (insert_missed-running now r (keep_if (to_miss now) db.expected_runs) db.executions)

-- The table after the four statements, row by row.
pub settle_slots-runs :
    (now : ℕ) (db : Db)
    → (settle_slots now db).expected_runs ≡ map (settled_row db now) db.expected_runs
unfolding settle_slots settled_row
settle_slots-runs now db =
    ap
      (λ p. update_where p (settle_as SlotState.failed now) (
        update_where (to_miss now) (settle_as SlotState.missed now)
          (mark_slots_late now (settle_maintenance now db)).expected_runs))
      (to_time_out-missed now (mark_slots_late now (settle_maintenance now db)))
    ∙ update_where_four (to_skip db now) (to_late now) (to_miss now) (to_time_out db now)
        (settle_as SlotState.skipped now) mark_late (settle_as SlotState.missed now)
        (settle_as SlotState.failed now) db.expected_runs
