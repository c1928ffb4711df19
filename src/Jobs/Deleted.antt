-- ===== src/Jobs/Deleted.antt =====
-- What a deletion of routers/jobs.py takes along, and what later reports of the job do.
use jobwatch.Prelude.{
  ℕ, ◌≡◌, ◌∙◌, ap, refl, subst, Bool, true, false, ◌&&◌, not, none, List, [], ◌∷◌, ◌==◌, inl, inr,
  map, any_of, elem, find_first, keep_if, not-false, Bool-cases, coalesce,
}
use jobwatch.Db.{Uuid, ExecId, Job, ExpectedRun, Execution, Db}
use jobwatch.Ingest.{ExecEvent, Env, seen_event, record_event}
use jobwatch.Processor.{own_job, process_as, process}
use jobwatch.Http.{ok, past-guard, ok-injective}
use jobwatch.Access.{devops, needs, at_least, Principal}
use jobwatch.Jobs.{
  Page, Estate, is_own_job, runs_with, logs_of, is_cron_of, unlist, purge_job, mentions,
}
use jobwatch.Jobs.Handlers.{write_delete, delete_job}

any_of-keep_if {ℓ} :
    {A : Type ℓ} (p : A → Bool) (xs : List A) → any_of p (keep_if (λ x. not (p x)) xs) ≡ false
any_of-keep_if p [] = refl
any_of-keep_if p (x ∷ xs) =
    let ih = any_of-keep_if p xs in
    elim (Bool-cases (p x)) [ inl t ↦ rw t ih | inr f ↦ rw (f, f) ih ]

-- No page lists the job.
unlisted :
    (id : Uuid) (pages : List Page)
    → any_of (λ (g : Page). elem id g.job_ids) (map (unlist id) pages) ≡ false
unlisted id [] = refl
unlisted id (g ∷ pages) = rw (without g.job_ids, unlisted id pages) refl
  where
    without : (ids : List Uuid) → elem id (keep_if (λ j. not (j == id)) ids) ≡ false
    without ids = any_of-keep_if (λ j. j == id) ids

-- What mentions the job, in the tables that have one.
abbrev pub IsGone : Uuid → Uuid → Estate → Type 0
IsGone org id t =
    (any_of (is_own_job org id) t.db.jobs ≡ false)
    × (any_of (λ (e : Execution). e.job_id == id) t.db.executions ≡ false)
    × (any_of (λ (r : ExpectedRun). r.job_id == id) t.db.expected_runs ≡ false)
    × (any_of (is_cron_of id) t.cronjobs ≡ false)
    × (any_of (λ (g : Page). elem id g.job_ids) t.pages ≡ false)
    × (any_of (mentions id) t.dependencies ≡ false)

deleted :
    (p : Principal) (id : Uuid) (t after : Estate)
    → delete_job p id t ≡ ok after
    → (at_least p devops ≡ true) × (write_delete p id t ≡ after)
unfolding delete_job needs
deleted p id t after h =
    let (allowed, h1) = past-guard (not (at_least p devops)) 403 _ h in
    let (there, h2) = past-guard (not (any_of (is_own_job p.org_id id) t.db.jobs)) 404 _ h1 in
    (not-false _ allowed, ok-injective h2)

-- After a deletion by a devops or more, nothing is left of the job: neither its row, nor its runs with their events and
-- logs, nor its slots, nor its place in a cluster, on a status page or in the graph of dependencies.
pub delete_job-IsGone :
    (p : Principal) (id : Uuid) (t after : Estate)
    → delete_job p id t ≡ ok after
    → (at_least p devops ≡ true)
      × IsGone p.org_id id after
      × (any_of (runs_with id t.db.executions) after.db.events ≡ false)
      × (any_of (logs_of id t.db.executions) after.db.logs ≡ false)
unfolding purge_job
delete_job-IsGone p id t after h =
    let (allowed, e) = deleted p id t after h in
    subst
      (λ (x : Estate).
        (at_least p devops ≡ true)
        × IsGone p.org_id id x
        × (any_of (runs_with id t.db.executions) x.db.events ≡ false)
        × (any_of (logs_of id t.db.executions) x.db.logs ≡ false))
      e
      (
        allowed,
        (
          any_of-keep_if (is_own_job p.org_id id) t.db.jobs,
          any_of-keep_if (λ (r : Execution). r.job_id == id) t.db.executions,
          any_of-keep_if (λ (r : ExpectedRun). r.job_id == id) t.db.expected_runs,
          any_of-keep_if (is_cron_of id) t.cronjobs,
          unlisted id t.pages,
          any_of-keep_if (mentions id) t.dependencies,
        ),
        any_of-keep_if (runs_with id t.db.executions) t.db.events,
        any_of-keep_if (logs_of id t.db.executions) t.db.logs,
      )

find_first-missing {ℓ} :
    {A : Type ℓ} (p : A → Bool) (xs : List A) → any_of p xs ≡ false → find_first p xs ≡ none
find_first-missing p [] h = refl
find_first-missing p (x ∷ xs) h = elim (Bool-cases (p x)) [
  | inl t ↦ cc (rw t at h)
  | inr f ↦ rw f (find_first-missing p xs (rw f at h))
]

ignored :
    (env : Env) (ev : ExecEvent) (exec_id : ExecId) (server_ts : ℕ) (db : Db)
    → any_of (is_own_job ev.org_id ev.job_id) db.jobs ≡ false
    → ((process_as env ev exec_id server_ts db).0 ≡ none)
      × (record (process_as env ev exec_id server_ts db).1 { events = db.events } ≡ db)
unfolding process_as own_job record_event
ignored env ev exec_id server_ts db missing =
    let recorded = record_event ev exec_id server_ts db in
    let gone : find_first (λ (j : Job). j.id == ev.job_id && j.org_id == ev.org_id) db.jobs ≡ none =
      find_first-missing (is_own_job ev.org_id ev.job_id) db.jobs missing in
    elim (Bool-cases (seen_event exec_id ev.sequence db)) [
      | inl old ↦ rw old (refl, refl)
      | inr new ↦ rw (new, gone) (refl, refl)
    ]

-- A report of a deleted job that is still under way announces nothing, and changes no table but that of the reports.
pub delete_job-silent :
    (p : Principal) (id : Uuid) (t after : Estate) (env : Env) (ev : ExecEvent)
    → delete_job p id t ≡ ok after
    → ev.job_id ≡ id
    → ev.org_id ≡ p.org_id
    → ((process env ev after.db).0 ≡ none)
      × (record (process env ev after.db).1 { events = after.db.events } ≡ after.db)
unfolding process
delete_job-silent p id t after env ev h same_job same_org =
    let gone = (delete_job-IsGone p id t after h).1.0 in
    ignored env ev (coalesce ev.execution_id env.new_id) (coalesce ev.server_ts env.now) after.db (
      ap (λ org. any_of (is_own_job org ev.job_id) after.db.jobs) same_org
      ∙ ap (λ i. any_of (is_own_job p.org_id i) after.db.jobs) same_job
      ∙ gone)
