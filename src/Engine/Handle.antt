-- ===== src/Engine/Handle.antt =====
-- `handle_status_change` of cronsentinel/alerting/engine.py. The ledger of what was sent is an
-- argument, and so is what Context reads: the list of changes and the results of `_job_ctx` and `signals_for_job`.
use jobwatch.Prelude.{
  ℕ, ◌-◌, Bool, true, false, ◌&&◌, ◌||◌, not, Option, none, some, List, [], ◌∷◌, ◌++◌, map, ◌==◌,
  leb, if◌then◌else◌, is_some, keep_if, any_of, elem, update_where,
}
use jobwatch.Status.{JobStatus}
use jobwatch.Schedule.{seconds}
use jobwatch.Db.{Uuid, Window}
use jobwatch.JobState.{StatusEvent}
use jobwatch.Reconciler.{key_holds, opt_key_holds, key_meets, is_empty_scope}
use jobwatch.Rules.{
  Rule, JobCtx, Condition, on_recovered, Zones, is_bad, scope_matches, suppressed_unknown,
  condition_fires, in_business_hours, is_flapping, should_repeat,
}
use jobwatch.Engine.{
  Signals, Incident, resolved, auto_recovered, was_resolved, Notified, flapping, plain, DedupKey,
  Alerts, is_open_for, open_incident, report_under, queue,
}

-- A window that holds `now` and whose scope holds the job.
abbrev pub window_holds : Uuid → ℕ → JobCtx → Window → Bool
window_holds org now job m =
    (m.org_id == org && (leb m.starts_at now && leb now m.ends_at))
    && (is_empty_scope m.scope
        || (key_holds m.scope.job_ids job.id
            || (key_meets m.scope.tags job.tags
                || opt_key_holds m.scope.environment_ids job.environment_id)))

unfoldable pub in_maintenance : Uuid → List Window → JobCtx → ℕ → Bool
in_maintenance org windows job now = any_of (window_holds org now job) windows

abbrev pub is_good : JobStatus → Bool
is_good JobStatus.recovered = true
is_good JobStatus.healthy = true
is_good _ = false

abbrev pub is_late_status : JobStatus → Bool
is_late_status JobStatus.late = true
is_late_status _ = false

abbrev pub resolve : ℕ → Incident → Incident
resolve now i = record i {
  status = resolved;
  resolved_at = some now;
  resolution = some auto_recovered;
}

-- resolved_at >= now() - interval '1 second'
abbrev pub just_resolved : ℕ → Option ℕ → Bool
just_resolved now none = false
just_resolved now (some t) = leb (now - seconds 1) t

abbrev pub resolves_now : Uuid → Uuid → ℕ → Incident → Bool
resolves_now org job now i =
    (i.org_id == org && just_resolved now i.resolved_at) && elem job i.affected_job_ids

-- The two statements of the automatic resolution.
unfoldable pub auto_resolve : Uuid → Uuid → ℕ → Alerts → Alerts
unfolding is_open_for
auto_resolve org job now a =
    let after = update_where (is_open_for org job) (resolve now) a.incidents in
    record a {
      incidents = after;
      incident_events =
          a.incident_events
          ++ map (λ (i : Incident). (i.id, was_resolved))
              (keep_if (resolves_now org job now) after);
    }

abbrev pub is_on_recovered : Condition → Bool
is_on_recovered on_recovered = true
is_on_recovered _ = false

abbrev pub is_flap : Notified → Bool
is_flap flapping = true
is_flap (plain c) = false

unfoldable pub notified_as : Bool → Condition → Notified
notified_as flaps c = if flaps && not (is_on_recovered c) then flapping else plain c

module _ (zones : Zones) (ev : StatusEvent) (now : ℕ) (job : JobCtx) (sig : Signals)
    (last_sent : DedupKey → Option ℕ) (flaps : Bool) where
  unfoldable pub key_of : Rule → DedupKey
  key_of rule = record {
    rule_id = rule.id;
    job_id = job.id;
    condition = notified_as flaps rule.condition;
  }

  -- The four tests that a rule must pass to notify.
  unfoldable pub passes : Rule → Bool
  passes rule =
      (scope_matches rule job
        && condition_fires rule ev.prev_status ev.new_status job ev.new_state ev.unknown_reason)
      && (in_business_hours zones rule.business_hours now
          && should_repeat (last_sent (key_of rule)) rule.repeat_interval_s now)

  abbrev pub needs_incident : Rule → Bool
  needs_incident rule =
      is_bad ev.new_status
      || (is_late_status ev.new_status || is_flap (notified_as flaps rule.condition))

  abbrev pub queue_under : Rule → ℕ × Alerts → Alerts
  queue_under rule (incident, a) = queue rule.channel_ids (key_of rule) (some incident) a

  -- One rule that passes.
  unfoldable pub notify : Rule → Alerts → Alerts
  notify rule a =
      if needs_incident rule
      then queue_under rule (
          report_under ev.org_id now job.id rule.id sig (open_incident ev.org_id job.id a.incidents)
            a)
      else queue rule.channel_ids (key_of rule) none a

  -- The body of the loop over the enabled rules.
  unfoldable pub run_rule : Rule → Alerts → Alerts
  run_rule rule a = if passes rule then notify rule a else a

  unfoldable pub run_rules : List Rule → Alerts → Alerts
  run_rules [] a = a
  run_rules (rule ∷ rules) a = run_rules rules (run_rule rule a)

abbrev pub resolve_if : Bool → Uuid → Uuid → ℕ → Alerts → Alerts
resolve_if false org job now a = a
resolve_if true org job now a = auto_resolve org job now a

abbrev pub handle_job :
    Zones
    → StatusEvent
    → ℕ
    → List ℕ
    → List Window
    → List Rule
    → Signals
    → (DedupKey → Option ℕ)
    → Option JobCtx
    → Alerts
    → Alerts
handle_job zones ev now changes windows rules sig last_sent none a = a
handle_job zones ev now changes windows rules sig last_sent (some job) a =
    let a' = resolve_if (is_good ev.new_status) ev.org_id job.id now a in
    let ran = run_rules zones ev now job sig last_sent (is_flapping changes now 600 3) rules a' in
    if in_maintenance ev.org_id windows job now then a' else ran

unfoldable pub handle_status_change :
    Zones
    → StatusEvent
    → ℕ
    → List ℕ
    → List Window
    → List Rule
    → Signals
    → (DedupKey → Option ℕ)
    → Option JobCtx
    → Alerts
    → Alerts
handle_status_change zones ev now changes windows rules sig last_sent ctx a =
    if is_some (suppressed_unknown ev.new_state ev.unknown_reason)
    then a
    else handle_job zones ev now changes windows rules sig last_sent ctx a
