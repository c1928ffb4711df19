-- ===== src/Samples/Estates.antt =====
-- A job that is created, updated and deleted.
use jobwatch.Prelude.{◌≡◌, refl, true, none, some, [], ◌∷◌}
use jobwatch.Schedule.{next_runs, next_run}
use jobwatch.Db.{Job}
use jobwatch.Processor.{process}
use jobwatch.Http.{ok}
use jobwatch.Access.{Principal, devops, needs}
use jobwatch.Jobs.{JobCreate, JobUpdate, Estate, valid_cron, valid_create, job_of}
use jobwatch.Jobs.Handlers.{add_job, write_update, write_delete, create_job, update_job, delete_job}
use jobwatch.Jobs.Deleted.{delete_job-silent}
use jobwatch.Samples.{hourly, tables, fail_event, env}

abbrev operator : Principal
operator = record { org_id = 7; user_id = some 1; role = devops; api_key_id = none }

abbrev estate : Estate
estate = record {
  db = tables;
  cronjobs = record { id = 5; job_id = some 1 } ∷ [];
  pages = record { id = 6; job_ids = 1 ∷ 2 ∷ [] } ∷ [];
  dependencies = record { org_id = 7; job_id = 1; depends_on_job_id = 2 } ∷ [];
  audit_logs = [];
}

abbrev body : JobCreate
body = record {
  workspace_id = 8;
  name = 97 ∷ [];
  description = none;
  kind = 0;
  schedule_expr = some "0 * * * *";
  tz = "UTC";
  expected_runtime_s = none;
  grace_s = 300;
  environment_id = none;
  team_id = none;
  tags = [];
  sla_target = some 9950;
}

abbrev new_job : Job
new_job = job_of 7000000 7 (some 1) 2 51 (some 3600000000) body

created :
    create_job hourly (λ e. true) 7000000 operator (some (some 5)) (λ b. true) 2 51 body estate
    ≡ ok (new_job, add_job operator new_job estate)
unfolding create_job needs valid_create valid_cron next_run next_runs
created = refl

abbrev twice_a_day : JobUpdate
twice_a_day = record {
  description = none;
  schedule_expr = some "0 0,12 * * *";
  tz = none;
  expected_runtime_s = none;
  grace_s = none;
  tags = none;
  sla_target = none;
  paused = none;
}

abbrev updated : Estate
updated = write_update 7000000 operator 1 twice_a_day (some (some 3600000000)) estate

update_ok : update_job hourly (λ e. true) 7000000 operator 1 twice_a_day estate ≡ ok updated
unfolding update_job needs valid_cron next_run next_runs
update_ok = refl

delete_ok : delete_job operator 1 estate ≡ ok (write_delete operator 1 estate)
unfolding delete_job needs
delete_ok = refl

delete_job-silent_example :
    ((process (env 3620000000) fail_event (write_delete operator 1 estate).db).0 ≡ none)
    × (record (process (env 3620000000) fail_event (write_delete operator 1 estate).db).1 {
      events = (write_delete operator 1 estate).db.events;
    }
        ≡ (write_delete operator 1 estate).db)
delete_job-silent_example =
    delete_job-silent operator 1 estate (write_delete operator 1 estate) (env 3620000000) fail_event
      delete_ok refl refl
