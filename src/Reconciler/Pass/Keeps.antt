-- ===== src/Reconciler/Pass/Keeps.antt =====
-- `recompute` of workers/reconciler.py: a pass over many jobs is a pass over each.
use mathlib.Core.Option
use jobwatch.Prelude.{
  ℕ, ◌≡◌, ◌⊎◌, inl, inr, refl, sym, ap, ◌∙◌, subst, true, false, Option, none, some, List, [], ◌∷◌,
  arith, Bool-cases, Mem, head, tail, Mem-cases, find_first-holds, find_first-update_where,
  update_if, ◌==◌,
}
use jobwatch.Db.{Uuid, Job, Db, find_job}
use jobwatch.JobState.{
  Computed, compute, facts_of, timeline, open_late, has_running, recovered, failures_since_success,
  recompute_state, recompute_row, recompute_found, unchanged, write_job, store_count, store_state,
}
use jobwatch.JobState.Stored.{Says, row_settled, recompute_state-row}
use jobwatch.Reconciler.Pass.{recompute}

-- A state pass over one job leaves the row of another, and what is computed for it, as they were.
write-other :
    (id other : Uuid) (f : Job → Job) (db : Db) (j : Job)
    → (id == other) ≡ false
    → ((k : Job) → (f k).id ≡ k.id)
    → find_job id db ≡ some j
    → find_job id (write_job other f db) ≡ some j
write-other id other f db j differ keep h =
    let mine : (j.id == id) ≡ true = (find_first-holds (λ (k : Job). k.id == id) db.jobs h).0 in
    let not_other : (j.id == other) ≡ false = ground arith in
    find_first-update_where (λ (k : Job). k.id == id) (λ k. k.id == other) f db.jobs
      (λ k. ap (λ i. i == id) (keep k))
    ∙ ap (Option.map (update_if (λ (k : Job). k.id == other) f)) h
    ∙ ap some (rw not_other)

compute-write_job :
    (other : Uuid) (f : Job → Job) (db : Db) (j : Job) (now : ℕ)
    → compute (write_job other f db) j now ≡ compute db j now
unfolding compute facts_of timeline open_late has_running recovered failures_since_success
compute-write_job other f db j now = refl

row-other :
    (id other org now : ℕ) (db : Db) (i j : Job) (c : Computed)
    → (id == other) ≡ false
    → find_job id db ≡ some j
    → (find_job id (recompute_row other org now db i c).1 ≡ some j)
      × ((t : ℕ) → compute (recompute_row other org now db i c).1 j t ≡ compute db j t)
unfolding recompute_row
row-other id other org now db i j c differ h = elim (Bool-cases (unchanged c i)) [
  | inl same ↦ rw same (
    write-other id other (store_count c.fails) db j differ (λ k. refl) h,
    λ t. compute-write_job other (store_count c.fails) db j t,
  )
  | inr new ↦ rw new (
    write-other id other (store_state c.state c.reason c.legacy c.fails now) db j differ (λ k. refl)
        h,
    λ t. compute-write_job other (store_state c.state c.reason c.legacy c.fails now) db j t,
  )
]

found-other :
    (id other org now : ℕ) (db : Db) (j : Job) (o : Option Job)
    → (id == other) ≡ false
    → find_job id db ≡ some j
    → (find_job id (recompute_found other org now db o).1 ≡ some j)
      × ((t : ℕ) → compute (recompute_found other org now db o).1 j t ≡ compute db j t)
found-other id other org now db j none differ h = (h, λ t. refl)
found-other id other org now db j (some i) differ h =
    row-other id other org now db i j (compute db i now) differ h

-- The row of a job after a pass: what is computed for it at any time is as before, and it has any property that it had,
-- or that what the pass writes for the job has.
pub pass-row :
    (id now : ℕ) (ps : List (ℕ × ℕ)) (db : Db) (j : Job) (cs : ℕ → Computed) (Fits : Job → Type 0)
    → find_job id db ≡ some j
    → ((t : ℕ) → compute db j t ≡ cs t)
    → ((k : Job) (org : ℕ) → Mem (id, org) ps → Says (cs now) k → Fits k)
    → Fits j ⊎ ((org : ℕ) × Mem (id, org) ps)
    → (k : Job) × (find_job id (recompute now ps db).1 ≡ some k)
      × ((t : ℕ) → compute (recompute now ps db).1 k t ≡ cs t)
      × Fits k
unfolding recompute
pass-row id now [] db j cs Fits h e fit s = elim s [
  | inl fits ↦ (j, h, e, fits)
  | inr (org, m) ↦ elim m [ ]
]
pass-row id now (p ∷ ps) db j cs Fits h e fit s = elim (Bool-cases (id == p.0)) [
  | inl own ↦
      let same : p.0 ≡ id = ground arith in
      let (k, found, says, again) = row_settled id p.1 now db j (cs now) h in
      let step : recompute_state p.0 p.1 now db ≡ recompute_row id p.1 now db j (cs now) =
        ap (λ i. recompute_state i p.1 now db) same
        ∙ recompute_state-row id p.1 now db j h
        ∙ ap (recompute_row id p.1 now db j) (e now) in
      let mine : Mem (id, p.1) (p ∷ ps) = subst (λ i. Mem (i, p.1) (p ∷ ps)) same head in
      subst
        (λ r.
          (x : Job) × (find_job id (recompute now ps r.1).1 ≡ some x)
          × ((t : ℕ) → compute (recompute now ps r.1).1 x t ≡ cs t)
          × Fits x)
        (sym step)
        (pass-row id now ps (recompute_row id p.1 now db j (cs now)).1 k cs Fits found
          (λ t. again t ∙ e t) (λ x org m. fit x org (tail m)) (inl (fit k p.1 mine says)))
  | inr other ↦
      let (found, again) = found-other id p.0 p.1 now db j (find_job p.0 db) other h in
      pass-row id now ps (recompute_state p.0 p.1 now db).1 j cs Fits
        (unfold recompute_state in found) (λ t. unfold recompute_state in again t ∙ e t)
        (λ x org m. fit x org (tail m))
        (elim s [
          | inl fits ↦ inl fits
          | inr (org, m) ↦ elim (Mem-cases m) [
            | inl q ↦ absurd (let same : id ≡ p.0 = ap (λ (w : ℕ × ℕ). w.0) q in ground arith)
            | inr later ↦ inr (org, later)
          ]
        ])
]

-- Of the jobs in a pass, every row ends as it was computed at the start.
pub pass-Says :
    (id now : ℕ) (ps : List (ℕ × ℕ)) (db : Db) (j : Job) (c : Computed)
    → find_job id db ≡ some j
    → compute db j now ≡ c
    → Says c j ⊎ ((org : ℕ) × Mem (id, org) ps)
    → (k : Job) × (find_job id (recompute now ps db).1 ≡ some k) × Says c k
pass-Says id now ps db j c h e s =
    let (k, found, again, says) =
      pass-row id now ps db j (compute db j) (Says c) h (λ t. refl)
        (λ x org m says. subst (λ d. Says d x) e says) s in
    (k, found, says)
