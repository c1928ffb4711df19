-- ===== src/Reconciler/Pass/Touched.antt =====
-- A tick of workers/reconciler.py: which jobs get a state pass, and what their rows say afterwards.
use jobwatch.Prelude.{
  ℕ, ◌≡◌, ◌⊎◌, inl, inr, refl, sym, ap, ◌∙◌, subst, Bool, true, false, some, List, ◌++◌, Bool-cases,
  Mem, map-Mem, keep_if-Mem, update_where, update_where-Mem,
}
use jobwatch.Status.{SlotState}
use mathlib.Core.List.{append_assoc}
use jobwatch.Db.{Uuid, Job, ExpectedRun, Db, find_job}
use jobwatch.JobState.{compute}
use jobwatch.JobState.Stored.{Says}
use jobwatch.Reconciler.{
  to_skip, to_late, to_miss, to_time_out, touched_by, settle_as, mark_late, settle_maintenance,
  mark_slots_late, mark_missed, mark_timeouts, settle_slots,
}
use jobwatch.Reconciler.Rows.{settled_row, to_time_out-missed}
use jobwatch.Reconciler.Outage.{settle_slots-row}
use jobwatch.Reconciler.Pass.Keeps.{pass-Says}
use jobwatch.Reconciler.Pass.{touched, job_pairs, agent_flipped, pause_flipped, sorted_pairs, tick}
use jobwatch.Reconciler.Pass.Pairs.{sorted_pairs-Mem, left, right}

-- A row that passes the test is touched.
touched_by-Mem :
    (p : ExpectedRun → Bool) (db : Db) {r : ExpectedRun}
    → Mem r db.expected_runs
    → p r ≡ true
    → Mem (r.job_id, r.org_id) (touched_by p db)
touched_by-Mem p db m t =
    map-Mem (λ (r : ExpectedRun). (r.job_id, r.org_id)) (keep_if-Mem p db.expected_runs m t)

job_pairs-Mem :
    (p : Job → Bool) (db : Db) {j : Job}
    → Mem j db.jobs
    → p j ≡ true
    → Mem (j.id, j.org_id) (job_pairs p db)
job_pairs-Mem p db m t = map-Mem (λ (j : Job). (j.id, j.org_id)) (keep_if-Mem p db.jobs m t)

untouched :
    (p : ExpectedRun → Bool) (f : ExpectedRun → ExpectedRun) {r : ExpectedRun}
    {xs : List ExpectedRun}
    → Mem r xs
    → p r ≡ false
    → Mem r (update_where p f xs)
untouched p f {r} {xs} m n =
    subst (λ x. Mem x (update_where p f xs)) (rw n refl) (update_where-Mem p f m)

settled_row_same :
    (db : Db) (now : ℕ) (r : ExpectedRun)
    → to_skip db now r ≡ false
    → to_late now r ≡ false
    → to_miss now r ≡ false
    → to_time_out db now r ≡ false
    → settled_row db now r ≡ r
unfolding settled_row
settled_row_same db now r a b c d = rw a (rw b (rw c (rw d refl)))

time_out-same :
    (now : ℕ) (db : Db)
    → to_time_out (mark_missed now (mark_slots_late now (settle_maintenance now db))) now
      ≡ to_time_out db now
unfolding to_time_out settle_maintenance mark_slots_late
time_out-same now db = to_time_out-missed now (mark_slots_late now (settle_maintenance now db))

-- Every slot that a statement changes is of a touched job.
slot-touched :
    (now : ℕ) (db : Db) {r : ExpectedRun}
    → Mem r db.expected_runs
    → (settled_row db now r ≡ r) ⊎ Mem (r.job_id, r.org_id) (touched now db)
unfolding touched settle_maintenance mark_slots_late mark_missed
slot-touched now db {r} m = elim (Bool-cases (to_skip db now r)) [
  | inl t ↦ inr (left (touched_by (to_skip db now) db) _ (touched_by-Mem (to_skip db now) db m t))
  | inr a ↦
      let m1 = untouched (to_skip db now) (settle_as SlotState.skipped now) m a in
      elim (Bool-cases (to_late now r)) [
        | inl t ↦ inr (
            right (touched_by (to_skip db now) db) _ (
              left (touched_by (to_late now) skipped) _
                (touched_by-Mem (to_late now) skipped m1 t)))
        | inr b ↦
            let m2 = untouched (to_late now) mark_late m1 b in
            elim (Bool-cases (to_miss now r)) [
              | inl t ↦ inr (
                  right (touched_by (to_skip db now) db) _ (
                    right (touched_by (to_late now) skipped) _ (
                      left (touched_by (to_miss now) late) _
                        (touched_by-Mem (to_miss now) late m2 t))))
              | inr c ↦
                  let m3 = untouched (to_miss now) (settle_as SlotState.missed now) m2 c in
                  elim (Bool-cases (to_time_out db now r)) [
                    | inl t ↦ inr (
                        right (touched_by (to_skip db now) db) _ (
                          right (touched_by (to_late now) skipped) _ (
                            right (touched_by (to_miss now) late) _ (
                              left
                                (touched_by (to_time_out (mark_missed now late) now)
                                  (mark_missed now late))
                                _
                                (touched_by-Mem (to_time_out (mark_missed now late) now)
                                  (mark_missed now late) m3
                                  (ap (λ (p : ExpectedRun → Bool). p r) (time_out-same now db)
                                    ∙ t))))))
                    | inr d ↦ inl (settled_row_same db now r a b c d)
                  ]
            ]
      ]
]
  where
    skipped : Db
    skipped = settle_maintenance now db

    late : Db
    late = mark_slots_late now (settle_maintenance now db)

-- Why a job needs a state pass: a slot of it is not in the table any more as it was, or its row does not say
-- that it is paused, or no longer so, or that its agent is.
pub data NeedsPass (now : ℕ) (db : Db) (j : Job) : Type 0 where
  slot_moved :
      (r : ExpectedRun)
      → Mem r db.expected_runs
      → r.job_id ≡ j.id
      → ¬ Mem r (settle_slots now db).expected_runs
      → NeedsPass now db j
  pause_moved : Mem j db.jobs → pause_flipped j ≡ true → NeedsPass now db j
  agent_moved : Mem j db.jobs → agent_flipped db now j ≡ true → NeedsPass now db j

module _ (now : ℕ) (db : Db) where
  slots : List (ℕ × ℕ)
  slots =
      let skipped = settle_maintenance now db in
      let late = mark_slots_late now skipped in
      let missed = mark_missed now late in
      touched_by (to_skip db now) db
      ++ (touched_by (to_late now) skipped
          ++ (touched_by (to_miss now) late ++ touched_by (to_time_out missed now) missed))

  agents : List (ℕ × ℕ)
  agents = job_pairs (agent_flipped (settle_slots now db) now) db

  touched-eq : touched now db ≡ slots ++ (agents ++ job_pairs pause_flipped db)
  unfolding touched slots agents
  touched-eq =
      let skipped = settle_maintenance now db in
      let late = mark_slots_late now skipped in
      let missed = mark_missed now late in
      let rest =
        job_pairs (agent_flipped (settle_slots now db) now) db ++ job_pairs pause_flipped db in
      let a = touched_by (to_skip db now) db in
      let b = touched_by (to_late now) skipped in
      let c = touched_by (to_miss now) late in
      let d = touched_by (to_time_out missed now) missed in
      sym (
        append_assoc a (b ++ (c ++ d)) rest
        ∙ ap (λ l. a ++ l)
            (append_assoc b (c ++ d) rest ∙ ap (λ l. b ++ l) (append_assoc c d rest)))

  agent_flipped-same :
      (j : Job) → agent_flipped (settle_slots now db) now j ≡ agent_flipped db now j
  unfolding agent_flipped settle_slots settle_maintenance mark_slots_late mark_missed mark_timeouts
  agent_flipped-same j = refl

  needs-touched : (j : Job) → NeedsPass now db j → (org : ℕ) × Mem (j.id, org) (touched now db)
  needs-touched j (slot_moved r m own gone) = elim (slot-touched now db m) [
    | inl same ↦ absurd (
        gone
          (subst (λ x. Mem x (settle_slots now db).expected_runs) same (settle_slots-row now db m)))
    | inr t ↦ (r.org_id, subst (λ id. Mem (id, r.org_id) (touched now db)) own t)
  ]
  needs-touched j (pause_moved m t) = (
    j.org_id,
    subst (λ l. Mem (j.id, j.org_id) l) (sym touched-eq)
        (right slots _ (right agents _ (job_pairs-Mem pause_flipped db m t))),
  )
  needs-touched j (agent_moved m t) = (
    j.org_id,
    subst (λ l. Mem (j.id, j.org_id) l) (sym touched-eq)
        (right slots _ (
          left agents _ (
            unfold agents in
            job_pairs-Mem (agent_flipped (settle_slots now db) now) db m
              (agent_flipped-same j ∙ t)))),
  )

  find_job-settle_slots : (id : Uuid) → find_job id (settle_slots now db) ≡ find_job id db
  unfolding settle_slots settle_maintenance mark_slots_late mark_missed mark_timeouts
  find_job-settle_slots id = refl

  -- After a tick the row of every job that needs a pass says what its state is by the settled tables: of each
  -- job with a slot that the tick changed, and of each one that was paused or resumed, or whose agent went quiet
  -- or came back, as far as the two queries select it.
  pub tick-Says :
      (j : Job)
      → find_job j.id db ≡ some j
      → NeedsPass now db j
      → (k : Job) × (find_job j.id (tick now db).1 ≡ some k)
        × Says (compute (settle_slots now db) j now) k
  unfolding tick
  tick-Says j h needs =
      let (org, m) = needs-touched j needs in
      pass-Says j.id now (sorted_pairs (touched now db)) (settle_slots now db) j
        (compute (settle_slots now db) j now) (find_job-settle_slots j.id ∙ h) refl
        (inr (org, sorted_pairs-Mem (touched now db) m))
