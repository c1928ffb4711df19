-- ===== src/Jobs/Created.antt =====
-- What a creation of routers/jobs.py leaves.
use Prim.Native.String.{String}
use jobwatch.Prelude.{
  ℕ, ◌+◌, ◌≤◌, ◌≡◌, refl, subst, Bool, true, false, not, some, [], ◌∷◌, ◌++◌, ◌==◌, ==_iff, leb,
  any_of, count_where, count_where-push, not-false, arith,
}
use jobwatch.Schedule.{Cron}
use jobwatch.Db.{Uuid, Job}
use jobwatch.Http.{ok, past-guard, past-part, ok-injective}
use jobwatch.Access.{developer, needs, at_least, Principal}
use jobwatch.Jobs.{JobCreate, Estate, valid_create, collides, job_of}
use jobwatch.Jobs.Handlers.{next_of, create_job}

module _ (cron : Cron) (validate : String → Bool) where
  -- On a plan with a limit of jobs: a job that is created comes behind those that are there, in the caller's organisation,
  -- whose role is developer or more; its body is valid, none of the other jobs has its identifier, its token, or its name
  -- in its workspace, and the organisation has no more jobs than the plan allows.
  pub create_job-Adds :
      (now : ℕ) (p : Principal) (m : ℕ) (known : JobCreate → Bool) (id : Uuid) (token : ℕ)
      (b : JobCreate) (t : Estate) (j : Job) (after : Estate)
      → create_job cron validate now p (some (some m)) known id token b t ≡ ok (j, after)
      → (at_least p developer ≡ true)
        × (valid_create validate b ≡ true)
        × (after.db.jobs ≡ t.db.jobs ++ (j ∷ []))
        × (j.org_id ≡ p.org_id)
        × (any_of (collides j.id j.heartbeat_token j.workspace_id j.name) t.db.jobs ≡ false)
        × (count_where (λ (k : Job). k.org_id == p.org_id) after.db.jobs ≤ m)
  unfolding create_job needs job_of
  create_job-Adds now p m known id token b t j after h =
      let n = count_where (λ (k : Job). k.org_id == p.org_id) t.db.jobs in
      let (allowed, h1) = past-guard (not (at_least p developer)) 403 _ h in
      let (valid, h2) = past-guard (not (valid_create validate b)) 422 _ h1 in
      let (room, h3) = past-guard (leb m n) 402 _ h2 in
      let (next, e, h4) = past-part (next_of cron validate now b.tz b.schedule_expr) _ h3 in
      let (fresh, h5) =
        past-guard (any_of (collides id token b.workspace_id b.name) t.db.jobs) 409 _ h4 in
      let (there, h6) = past-guard (not (known b)) 500 _ h5 in
      let new = job_of now p.org_id p.user_id id token next b in
      let more =
        count_where-push (λ (k : Job). k.org_id == p.org_id) new t.db.jobs
          ((==_iff p.org_id p.org_id).1 refl) in
      let low : n + 1 ≤ m = ground arith in
      subst
        (λ (x : Job × Estate).
          (at_least p developer ≡ true)
          × (valid_create validate b ≡ true)
          × (x.1.db.jobs ≡ t.db.jobs ++ (x.0 ∷ []))
          × (x.0.org_id ≡ p.org_id)
          × (any_of (collides x.0.id x.0.heartbeat_token x.0.workspace_id x.0.name) t.db.jobs
              ≡ false)
          × (count_where (λ (k : Job). k.org_id == p.org_id) x.1.db.jobs ≤ m))
        (ok-injective h6) (not-false _ allowed, not-false _ valid, refl, refl, fresh, rw more low)
