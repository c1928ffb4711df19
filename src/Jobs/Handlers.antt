-- ===== src/Jobs/Handlers.antt =====
-- The handlers of cronsentinel/routers/jobs.py that change jobs.
use Prim.Native.String.{String}
use jobwatch.Prelude.{
  ℕ, Bool, true, false, not, Option, none, some, [], ◌∷◌, ◌++◌, ◌==◌, any_of, find_first,
  update_where, count_where, coalesce,
}
use jobwatch.Schedule.{Cron, next_run}
use jobwatch.Db.{Uuid, Job}
use jobwatch.JobState.{has_text}
use jobwatch.Http.{Reply, ok, raised, ◌>>=◌, raise_if, found_or}
use jobwatch.Access.{
  developer, devops, needs, Principal, audit, job_create, job_update, job_delete, or_else,
}
use jobwatch.Jobs.{
  JobCreate, JobUpdate, Estate, valid_cron, valid_create, over_limit, collides, job_of,
  is_empty_update, reschedules, set_fields, is_own_job, purge_job, remove_job,
}

abbrev pub add_job : Principal → Job → Estate → Estate
add_job p j t = record t {
  db = record t.db { jobs = t.db.jobs ++ (j ∷ []) };
  audit_logs = t.audit_logs ++ (audit p job_create j.id ∷ []);
}

abbrev pub write_update : ℕ → Principal → Uuid → JobUpdate → Option (Option ℕ) → Estate → Estate
write_update now p id u next t = record t {
  db = record t.db {
    jobs = update_where (is_own_job p.org_id id) (set_fields now u next) t.db.jobs;
  };
  audit_logs = t.audit_logs ++ (audit p job_update id ∷ []);
}

module _ (cron : Cron) (validate : String → Bool) where
  -- `schedule.next_run(expr, tz)`, which may raise.
  abbrev pub answer_next : Option ℕ → Reply (Option ℕ)
  answer_next none = raised 500
  answer_next (some t) = ok (some t)

  abbrev pub next_of : ℕ → String → Option String → Reply (Option ℕ)
  next_of now tz none = ok none
  next_of now tz (some e) = elim (has_text (some e)) [
    | false ↦ ok none
    | true ↦ answer_next (next_run cron e tz now)
  ]

  -- The limit of the plan, the rows that the body names, and the identifier and token that are made up.
  unfoldable pub create_job :
      ℕ
      → Principal
      → Option (Option ℕ)
      → (JobCreate → Bool)
      → Uuid
      → ℕ
      → JobCreate
      → Estate
      → Reply (Job × Estate)
  unfolding needs valid_create next_run job_of
  create_job now p lim known id token b t = needs developer p >>= λ _.
      raise_if (not (valid_create validate b)) 422 >>= λ _.
      raise_if (over_limit lim (count_where (λ (j : Job). j.org_id == p.org_id) t.db.jobs)) 402
      >>= λ _. next_of now b.tz b.schedule_expr >>= λ next.
          raise_if (any_of (collides id token b.workspace_id b.name) t.db.jobs) 409 >>= λ _.
          raise_if (not (known b)) 500 >>= λ _. ok (
            job_of now p.org_id p.user_id id token next b,
            add_job p (job_of now p.org_id p.user_id id token next b) t,
          )

  -- What `fields` gets besides the body's own.
  abbrev pub next_when : Bool → ℕ → JobUpdate → Job → Reply (Option (Option ℕ))
  next_when false now u j = ok none
  next_when true now u j =
      next_of now (coalesce u.tz j.tz) (or_else u.schedule_expr j.schedule_expr) >>= λ next.
      ok (some next)

  unfoldable pub update_job : ℕ → Principal → Uuid → JobUpdate → Estate → Reply Estate
  unfolding needs valid_cron next_run set_fields
  update_job now p id u t = needs developer p >>= λ _.
      raise_if (not (valid_cron validate u.schedule_expr)) 422 >>= λ _.
      raise_if (is_empty_update u) 400 >>= λ _.
      found_or 404 (find_first (is_own_job p.org_id id) t.db.jobs) >>= λ (j : Job).
      next_when (reschedules u) now u j >>= λ next. ok (write_update now p id u next t)

abbrev pub write_delete : Principal → Uuid → Estate → Estate
write_delete p id t =
    let gone : Estate = remove_job p.org_id id (purge_job id t) in
    record gone { audit_logs = gone.audit_logs ++ (audit p job_delete id ∷ []) }

unfoldable pub delete_job : Principal → Uuid → Estate → Reply Estate
unfolding needs purge_job
delete_job p id t = needs devops p >>= λ _.
    raise_if (not (any_of (is_own_job p.org_id id) t.db.jobs)) 404 >>= λ _. ok (write_delete p id t)
