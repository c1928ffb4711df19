-- ===== src/Jobs/Updated.antt =====
-- What an update of routers/jobs.py leaves as it is.
use Prim.Native.String.{String}
use jobwatch.Prelude.{
  ℕ, ◌≡◌, ap, refl, subst, Bool, true, not, Option, List, [], ◌∷◌, inl, inr, map, find_first,
  keep_if, update_where, map-update_where, not-false, Bool-cases,
}
use jobwatch.Schedule.{Cron}
use jobwatch.Db.{Uuid, Job}
use jobwatch.Http.{ok, past-guard, past-part, past-found, ok-injective}
use jobwatch.Access.{developer, needs, at_least, Principal, Text}
use jobwatch.Jobs.{
  JobUpdate, Estate, valid_cron, is_empty_update, reschedules, set_fields, is_own_job,
}
use jobwatch.Jobs.Handlers.{next_when, update_job}

-- What makes up a job, and how far its slots are generated.
abbrev pub identity : Job → (Uuid × Uuid × Uuid) × (Text × ℕ) × (ℕ × Option ℕ)
identity j = (
  (j.id, j.org_id, j.workspace_id),
  (j.name, j.heartbeat_token),
  (j.created_at, j.generated_through),
)

keep_if-update_where {ℓ} :
    {A : Type ℓ} (p : A → Bool) (f : A → A) (xs : List A)
    → ((x : A) → p (f x) ≡ p x)
    → keep_if (λ x. not (p x)) (update_where p f xs) ≡ keep_if (λ x. not (p x)) xs
keep_if-update_where p f [] h = refl
keep_if-update_where p f (x ∷ xs) h =
    let ih = keep_if-update_where p f xs h in
    elim (Bool-cases (p x)) [ inl t ↦ rw (t, h x, t) ih | inr n ↦ rw (n, n) (ap (λ l. x ∷ l) ih) ]

module _ (cron : Cron) (validate : String → Bool) where
  -- After an update by a developer, every job has its identity, its token and the instant up to which its slots were
  -- generated, the other jobs are as they were, and so are all other tables: the slots of a schedule that was replaced
  -- stay.
  pub update_job-Keeps :
      (now : ℕ) (p : Principal) (id : Uuid) (u : JobUpdate) (t after : Estate)
      → update_job cron validate now p id u t ≡ ok after
      → (at_least p developer ≡ true)
        × (map identity after.db.jobs ≡ map identity t.db.jobs)
        × (keep_if (λ j. not (is_own_job p.org_id id j)) after.db.jobs
            ≡ keep_if (λ j. not (is_own_job p.org_id id j)) t.db.jobs)
        × (record after.db { jobs = t.db.jobs } ≡ t.db)
  unfolding update_job needs set_fields
  update_job-Keeps now p id u t after h =
      let (allowed, h1) = past-guard (not (at_least p developer)) 403 _ h in
      let (valid, h2) = past-guard (not (valid_cron validate u.schedule_expr)) 422 _ h1 in
      let (some_field, h3) = past-guard (is_empty_update u) 400 _ h2 in
      let (j, found, h4) = past-found 404 (find_first (is_own_job p.org_id id) t.db.jobs) _ h3 in
      let (next, e, h5) = past-part (next_when cron validate (reschedules u) now u j) _ h4 in
      subst
        (λ (x : Estate).
          (at_least p developer ≡ true)
          × (map identity x.db.jobs ≡ map identity t.db.jobs)
          × (keep_if (λ j. not (is_own_job p.org_id id j)) x.db.jobs
              ≡ keep_if (λ j. not (is_own_job p.org_id id j)) t.db.jobs)
          × (record x.db { jobs = t.db.jobs } ≡ t.db))
        (ok-injective h5)
        (
          not-false _ allowed,
          map-update_where identity (is_own_job p.org_id id) (set_fields now u next) t.db.jobs
              (λ x. refl),
          keep_if-update_where (is_own_job p.org_id id) (set_fields now u next) t.db.jobs
              (λ x. refl),
          refl,
        )
