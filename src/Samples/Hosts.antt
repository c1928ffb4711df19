-- ===== src/Samples/Hosts.antt =====
-- A job whose last run was on the host of another job's incident.
use jobwatch.Prelude.{◌≡◌, refl, none, some, [], ◌∷◌, head, arith}
use jobwatch.Db.{Execution, Db}
use jobwatch.Rules.{on_late}
use jobwatch.Engine.Context.{Columns, EngineState, signals_for_job, on_status_change}
use jobwatch.Engine.SameHost.{IsJoinable, IsSame, on_status_change-joins}
use jobwatch.Samples.{failed_run, tables}
use jobwatch.Samples.Alerts.{rule_on, late_news}
use jobwatch.Samples.Pages.{alerts, neighbour, noon, on_host, nothing_sent}

abbrev run_there : Execution
run_there = record failed_run { host = some 80 }

abbrev run_tables : Db
run_tables = record tables { executions = run_there ∷ [] }

abbrev columns : Columns
columns = record {
  cluster_id = λ j. none;
  sla_days = λ j. 30;
  deploy_version = λ e. none;
  namespace = λ j. none;
}

abbrev before : EngineState
before = record { alerts = alerts; flaps = λ j. [] }

ran_there : (signals_for_job run_tables [] columns 7 1).host ≡ some 80
unfolding signals_for_job
ran_there = refl

neighbour-IsJoinable : IsJoinable 7 3700000000 80 neighbour
neighbour-IsJoinable = record {
  own = refl;
  going_on = refl;
  recent = omega arith;
  failure = (on_host, head, refl);
}

on_status_change-joins_example :
    IsSame 7 3700000000 80 91
      (90 ∷ [])
      (on_status_change noon run_tables [] columns
        (rule_on on_late ∷ [])
        nothing_sent
        late_news
        3700000000
        before).alerts.next_incident
      (on_status_change noon run_tables [] columns
        (rule_on on_late ∷ [])
        nothing_sent
        late_news
        3700000000
        before).alerts.incidents
on_status_change-joins_example =
    on_status_change-joins noon run_tables [] columns (rule_on on_late ∷ []) nothing_sent late_news
      3700000000 80 before neighbour refl ran_there head neighbour-IsJoinable
