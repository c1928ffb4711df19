-- ===== src/Generator/Unique.antt =====
-- The slots that schedule_generator.py writes: no slot twice, in whatever chunks they are inserted.
use jobwatch.Prelude.{
  ℕ, zero, suc, ◌≤◌, ◌<◌, ◌≡◌, inl, inr, refl, sym, ap, ◌∙◌, subst, Bool, false, List, [], ◌∷◌,
  ◌++◌, arith, Bool-cases, All, All-append, any_of, any_of-false, take, drop, take-append-drop,
  length, length-drop,
}
use jobwatch.Db.{Job, ExpectedRun, Db}
use jobwatch.Schedule.{Cron}
use jobwatch.Generator.{
  Draft, Inserted, is_slot, new_run, insert_slot, insert_slots, insert_chunks, run_batch, run_jobs,
  batch_of, select_jobs, slot_chunk,
}

abbrev pub same_slot : ExpectedRun → ExpectedRun → Bool
same_slot a b = is_slot b.job_id b.scheduled_for a

-- No two rows for one job and instant.
abbrev pub HasUniqueSlots : List ExpectedRun → Type 0
HasUniqueSlots [] = Unit
HasUniqueSlots (r ∷ rs) = All (λ x. same_slot r x ≡ false) rs × HasUniqueSlots rs

append-HasUniqueSlots :
    (rs : List ExpectedRun) (r : ExpectedRun)
    → All (λ x. same_slot x r ≡ false) rs
    → HasUniqueSlots rs
    → HasUniqueSlots (rs ++ (r ∷ []))
append-HasUniqueSlots [] r h u = (tt, tt)
append-HasUniqueSlots (x ∷ xs) r h u = (
  All-append (λ y. same_slot x y ≡ false) xs (r ∷ []) u.0 (h.0, tt),
  append-HasUniqueSlots xs r h.1 u.1,
)

insert_slot-HasUniqueSlots :
    (d : Draft) (t : Inserted) → HasUniqueSlots t.runs → HasUniqueSlots (insert_slot d t).runs
unfolding insert_slot
insert_slot-HasUniqueSlots d t u =
    elim (Bool-cases (any_of (is_slot d.job_id d.slot.scheduled_for) t.runs)) [
      | inl h ↦ rw h u
      | inr h ↦ rw h (
          append-HasUniqueSlots t.runs (new_run t.next_id d)
            (any_of-false (is_slot d.job_id d.slot.scheduled_for) t.runs h) u)
    ]

insert_slots-HasUniqueSlots :
    (ds : List Draft) (t : Inserted)
    → HasUniqueSlots t.runs
    → HasUniqueSlots (insert_slots ds t).runs
unfolding insert_slots
insert_slots-HasUniqueSlots [] t u = u
insert_slots-HasUniqueSlots (d ∷ ds) t u =
    insert_slots-HasUniqueSlots ds (insert_slot d t) (insert_slot-HasUniqueSlots d t u)

insert_slots-append :
    (ds es : List Draft) (t : Inserted)
    → insert_slots (ds ++ es) t ≡ insert_slots es (insert_slots ds t)
unfolding insert_slots
insert_slots-append [] es t = refl
insert_slots-append (d ∷ ds) es t = insert_slots-append ds es (insert_slot d t)

-- Chunks of any positive size insert what one statement for all rows would insert, in as many chunks as
-- there are rows at most.
pub insert_chunks-eq-insert_slots :
    (fuel size : ℕ) (ds : List Draft) (t : Inserted)
    → 0 < size
    → length ds ≤ fuel
    → insert_chunks fuel size ds t ≡ insert_slots ds t
unfolding insert_chunks insert_slots
insert_chunks-eq-insert_slots zero size [] t pos enough = refl
insert_chunks-eq-insert_slots zero size (d ∷ ds) t pos enough = absurd (omega arith)
insert_chunks-eq-insert_slots (suc fuel) size [] t pos enough = refl
insert_chunks-eq-insert_slots (suc fuel) size (d ∷ ds) t pos enough =
    insert_chunks-eq-insert_slots fuel size (drop size (d ∷ ds))
      (insert_slots (take size (d ∷ ds)) t) pos (omega (arith, length-drop size (d ∷ ds)))
    ∙ sym (insert_slots-append (take size (d ∷ ds)) (drop size (d ∷ ds)) t)
    ∙ ap (λ l. insert_slots l t) (take-append-drop size (d ∷ ds))

run_jobs-HasUniqueSlots :
    (cron : Cron) (now : ℕ) (db : Db) (js : List Job)
    → HasUniqueSlots db.expected_runs
    → HasUniqueSlots (run_jobs cron now db js).db.expected_runs
run_jobs-HasUniqueSlots cron now db [] u = u
run_jobs-HasUniqueSlots cron now db (j ∷ js) u =
    let b = batch_of cron now (j ∷ js) in
    let t : Inserted = record { runs = db.expected_runs; next_id = db.next_run_id; rowcount = 0 } in
    subst (λ (i : Inserted). HasUniqueSlots i.runs)
      (sym (
        insert_chunks-eq-insert_slots (length b.cols) slot_chunk b.cols t (omega arith)
          (omega arith)))
      (insert_slots-HasUniqueSlots b.cols t u)

-- A batch keeps the table free of second rows for one job and instant, whatever the calendar answers, and
-- also where the windows of two passes overlap.
pub run_batch-HasUniqueSlots :
    (cron : Cron) (limit now : ℕ) (db : Db)
    → HasUniqueSlots db.expected_runs
    → HasUniqueSlots (run_batch cron limit now db).db.expected_runs
unfolding run_batch
run_batch-HasUniqueSlots cron limit now db u =
    run_jobs-HasUniqueSlots cron now db (select_jobs limit now db) u
