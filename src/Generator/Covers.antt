-- ===== src/Generator/Covers.antt =====
-- What a batch of schedule_generator.py writes: every slot of the jobs that it takes.
use jobwatch.Prelude.{
  any_of-left, ℕ, ◌<◌, ◌≡◌, inl, inr, refl, sym, subst, Bool, true, List, [], ◌∷◌, ◌++◌, map, arith,
  Bool-cases, Mem, head, tail, Mem-cases, any_of, length, leb,
}
use jobwatch.Db.{Job, ExpectedRun, Db}
use jobwatch.Schedule.{Cron, Slot}
use jobwatch.Generator.{
  Draft, Inserted, Batch, is_slot, new_run, insert_slot, insert_slots, run_batch, run_jobs,
  batch_of, select_jobs, slot_chunk, slot_budget, fill, add_job, job_slots, draft,
}
use jobwatch.Generator.Unique.{insert_chunks-eq-insert_slots}

module _ {ℓ} {A : Type ℓ} where
  pub any_of-last :
      (p : A → Bool) (xs : List A) (a : A) → p a ≡ true → any_of p (xs ++ (a ∷ [])) ≡ true
  any_of-last p [] a t = rw t refl
  any_of-last p (x ∷ xs) a t = ground (arith, any_of-last p xs a t)

  Mem-left : (xs ys : List A) {a : A} → Mem a xs → Mem a (xs ++ ys)
  Mem-left [] ys m = elim m [ ]
  Mem-left (x ∷ xs) ys head = head
  Mem-left (x ∷ xs) ys (tail m) = tail (Mem-left xs ys m)

  Mem-right : (xs ys : List A) {a : A} → Mem a ys → Mem a (xs ++ ys)
  Mem-right [] ys m = m
  Mem-right (x ∷ xs) ys m = tail (Mem-right xs ys m)

Mem-drafts : (j : Job) (ss : List Slot) {s : Slot} → Mem s ss → Mem (draft j s) (map (draft j) ss)
Mem-drafts j (x ∷ ss) head = head
Mem-drafts j (x ∷ ss) (tail m) = tail (Mem-drafts j ss m)
Mem-drafts j [] m = elim m [ ]

insert_slot-keeps :
    (p : ExpectedRun → Bool) (d : Draft) (t : Inserted)
    → any_of p t.runs ≡ true
    → any_of p (insert_slot d t).runs ≡ true
unfolding insert_slot
insert_slot-keeps p d t h =
    elim (Bool-cases (any_of (is_slot d.job_id d.slot.scheduled_for) t.runs)) [
      | inl old ↦ rw old h
      | inr new ↦ rw new (any_of-left p t.runs (new_run t.next_id d ∷ []) h)
    ]

insert_slots-keeps :
    (p : ExpectedRun → Bool) (ds : List Draft) (t : Inserted)
    → any_of p t.runs ≡ true
    → any_of p (insert_slots ds t).runs ≡ true
unfolding insert_slots
insert_slots-keeps p [] t h = h
insert_slots-keeps p (d ∷ ds) t h =
    insert_slots-keeps p ds (insert_slot d t) (insert_slot-keeps p d t h)

new_run-is_slot : (n : ℕ) (d : Draft) → is_slot d.job_id d.slot.scheduled_for (new_run n d) ≡ true
new_run-is_slot n d = ground arith

insert_slot-has :
    (d : Draft) (t : Inserted)
    → any_of (is_slot d.job_id d.slot.scheduled_for) (insert_slot d t).runs ≡ true
unfolding insert_slot
insert_slot-has d t = elim (Bool-cases (any_of (is_slot d.job_id d.slot.scheduled_for) t.runs)) [
  | inl old ↦ rw old old
  | inr new ↦ rw new (
      any_of-last (is_slot d.job_id d.slot.scheduled_for) t.runs (new_run t.next_id d)
        (new_run-is_slot t.next_id d))
]

insert_slots-has :
    (ds : List Draft) (t : Inserted) {d : Draft}
    → Mem d ds
    → any_of (is_slot d.job_id d.slot.scheduled_for) (insert_slots ds t).runs ≡ true
unfolding insert_slots
insert_slots-has [] t m = elim m [ ]
insert_slots-has (d ∷ ds) t head =
    insert_slots-keeps (is_slot d.job_id d.slot.scheduled_for) ds (insert_slot d t)
      (insert_slot-has d t)
insert_slots-has (x ∷ ds) t (tail m) = insert_slots-has ds (insert_slot x t) m

module _ (cron : Cron) (now : ℕ) where
  fill-keeps :
      (js : List Job) (b : Batch) {d : Draft} → Mem d b.cols → Mem d (fill cron now js b).cols
  unfolding fill
  fill-keeps [] b m = m
  fill-keeps (j ∷ js) b m = elim (Bool-cases (leb slot_budget (length b.cols))) [
    | inl full ↦ rw full m
    | inr room ↦ rw room (
        fill-keeps js (add_job cron now j b)
          (Mem-left b.cols (map (draft j) (job_slots cron now j j.schedule_expr)) m))
  ]

  -- A loop that ends below the budget has taken every job.
  fill-all :
      (js : List Job) (b : Batch) {j : Job} {s : Slot}
      → length (fill cron now js b).cols < slot_budget
      → Mem j js
      → Mem s (job_slots cron now j j.schedule_expr)
      → Mem (draft j s) (fill cron now js b).cols
  unfolding fill
  fill-all [] b below m n = elim m [ ]
  fill-all (k ∷ js) b {j} {s} below m n = elim (Bool-cases (leb slot_budget (length b.cols))) [
    | inl full ↦ absurd (let h = rw full at below in ground arith)
    | inr room ↦ rw room (elim (Mem-cases m) [
      | inl e ↦ fill-keeps js (add_job cron now k b) (
          Mem-right b.cols (map (draft k) (job_slots cron now k k.schedule_expr)) (
            subst (λ i. Mem (draft i s) (map (draft k) (job_slots cron now k k.schedule_expr)))
              (sym e)
              (Mem-drafts k (job_slots cron now k k.schedule_expr)
                (subst (λ i. Mem s (job_slots cron now i i.schedule_expr)) e n))))
      | inr later ↦ fill-all js (add_job cron now k b) (rw room at below) later n
    ])
  ]

  run_jobs-has :
      (db : Db) (js : List Job) {j : Job} {s : Slot}
      → length (batch_of cron now js).cols < slot_budget
      → Mem j js
      → Mem s (job_slots cron now j j.schedule_expr)
      → any_of (is_slot j.id s.scheduled_for) (run_jobs cron now db js).db.expected_runs ≡ true
  run_jobs-has db [] below m n = elim m [ ]
  run_jobs-has db (k ∷ js) {j} {s} below m n =
      let b = batch_of cron now (k ∷ js) in
      let t : Inserted = record {
        runs = db.expected_runs;
        next_id = db.next_run_id;
        rowcount = 0;
      } in
      subst (λ (i : Inserted). any_of (is_slot j.id s.scheduled_for) i.runs ≡ true)
        (sym (
          insert_chunks-eq-insert_slots (length b.cols) slot_chunk b.cols t (omega arith)
            (omega arith)))
        (insert_slots-has b.cols t (fill-all (k ∷ js) (record { cols = []; ends = [] }) below m n))

  -- After a batch that stays below its budget, every slot that the schedule has in the window of a selected
  -- job, up to the limit of slots per job, has a row for that job and instant.
  pub run_batch-covers :
      (limit : ℕ) (db : Db) (j : Job) (s : Slot)
      → length (batch_of cron now (select_jobs limit now db)).cols < slot_budget
      → Mem j (select_jobs limit now db)
      → Mem s (job_slots cron now j j.schedule_expr)
      → any_of (is_slot j.id s.scheduled_for) (run_batch cron limit now db).db.expected_runs ≡ true
  unfolding run_batch
  run_batch-covers limit db j s below m n = run_jobs-has db (select_jobs limit now db) below m n
