-- ===== src/Engine.antt =====
-- cronsentinel/alerting/engine.py and the incidents of alerting/correlation.py: what a change of status opens,
-- joins, resolves and notifies. The signals of the job and its context are arguments, which
-- Engine/Context reads; titles and severities are left out.
pub mod Handle
pub mod Notices
pub mod Incidents
pub mod Joins
pub mod Sound
pub mod Keeps
pub mod Extends
pub mod History
pub mod Unlisted
pub mod Context
pub mod SameHost
pub mod Responders
use jobwatch.Prelude.{
  ℕ, suc, ◌+◌, ◌-◌, Bool, true, false, ◌&&◌, ◌||◌, not, Option, none, some, List, [], ◌∷◌, ◌++◌,
  map, ◌==◌, leb, if◌then◌else◌, is_some, keep_if, any_of, elem, find_first, update_where,
  sort_desc, maximum,
}
use jobwatch.Status.{JobState, UnknownReason, JobStatus}
use jobwatch.Schedule.{seconds}
use jobwatch.Db.{Uuid, Window, Scope}
use jobwatch.JobState.{StatusEvent}
use jobwatch.Reconciler.{key_holds, opt_key_holds, key_meets, is_empty_scope}
use jobwatch.Rules.{
  Rule, JobCtx, Condition, on_recovered, Zones, is_bad, is_shown, scope_matches, suppressed_unknown,
  condition_fires, in_business_hours, is_flapping, should_repeat,
}

pub data IncidentStatus : Type 0 where
  opened acknowledged resolved : IncidentStatus

-- What `signals_for_job` finds and `find_related_incident` reads; texts are numbers, and an empty text is `none`.
pub record Signals : Type 0 where
  pub host : Option ℕ
  pub cluster_ns : Option (Uuid × ℕ)
  pub deploy_version : Option ℕ
  pub upstream : List Uuid
  pub downstream : List Uuid

-- The text of a resolution: that of the engine, or a responder's.
pub data Resolution : Type 0 where
  auto_recovered : Resolution
  written : ℕ → Resolution

pub record Incident : Type 0 where
  pub id : ℕ
  pub org_id : Uuid
  pub status : IncidentStatus
  pub started_at : ℕ
  pub acknowledged_at : Option ℕ
  pub resolved_at : Option ℕ
  pub affected_job_ids : List Uuid
  pub root_cause : Option ℕ
  pub resolution : Option Resolution
  pub responder_ids : List (Option Uuid)
  pub rule_id : Option Uuid
  pub correlation_signals : List Signals

pub data EventKind : Type 0 where
  status_changed was_opened correlated was_acknowledged note was_resolved : EventKind

-- The condition of a notification: that of the rule, or flapping.
pub data Notified : Type 0 where
  flapping : Notified
  plain : Condition → Notified

-- dedup_key
pub record DedupKey : Type 0 where
  pub rule_id : Uuid
  pub job_id : Uuid
  pub condition : Notified

-- A call of send_notification.delay.
pub record Notice : Type 0 where
  pub channel_id : Uuid
  pub key : DedupKey
  pub incident_id : Option ℕ

pub record Alerts : Type 0 where
  pub incidents : List Incident
  pub next_incident : ℕ
  pub incident_events : List (ℕ × EventKind)
  pub notices : List Notice

abbrev pub is_resolved : IncidentStatus → Bool
is_resolved resolved = true
is_resolved _ = false

-- org_id=:o AND status<>'resolved' AND :j = ANY(affected_job_ids)
unfoldable pub is_open_for : Uuid → Uuid → Incident → Bool
is_open_for org job i =
    (i.org_id == org && not (is_resolved i.status)) && elem job i.affected_job_ids

abbrev pub first_of : List Incident → Option Incident
first_of [] = none
first_of (i ∷ _) = some i

-- ORDER BY started_at DESC LIMIT 1
unfoldable pub open_incident : Uuid → Uuid → List Incident → Option Incident
unfolding is_open_for
open_incident org job incidents =
    first_of (sort_desc (λ (i : Incident). i.started_at) (keep_if (is_open_for org job) incidents))

abbrev pub same_signal : Option ℕ → Option ℕ → Bool
same_signal (some a) (some b) = a == b
same_signal _ _ = false

abbrev pub same_cluster : Option (Uuid × ℕ) → Option (Uuid × ℕ) → Bool
same_cluster (some (c, ns)) (some (d, ms)) = c == d && ns == ms
same_cluster _ _ = false

abbrev pub shares : Signals → Signals → Bool
shares sig prev =
    same_signal sig.host prev.host
    || (same_cluster sig.cluster_ns prev.cluster_ns
        || same_signal sig.deploy_version prev.deploy_version)

-- The body of the loop over the candidates: whether it returns.
unfoldable pub is_related : Signals → Incident → Bool
is_related sig c =
    any_of (shares sig) c.correlation_signals
    || (any_of (λ j. elem j sig.upstream) c.affected_job_ids
        || any_of (λ j. elem j sig.downstream) c.affected_job_ids)

-- WINDOW and the 25 minutes that are added to it.
abbrev pub lookback : ℕ
lookback = seconds 300 + seconds 1500

unfoldable pub is_candidate : Uuid → ℕ → Incident → Bool
is_candidate org now i =
    (i.org_id == org && not (is_resolved i.status)) && leb (now - lookback) i.started_at

unfoldable pub find_related_incident : Uuid → ℕ → Signals → List Incident → Option Incident
unfolding is_candidate is_related
find_related_incident org now sig incidents =
    find_first (is_related sig)
      (sort_desc (λ (i : Incident). i.started_at) (keep_if (is_candidate org now) incidents))

-- array_agg(DISTINCT x) of the array with the job appended, up to its order.
abbrev pub add_job : Uuid → List Uuid → List Uuid
add_job job ids = let more = ids ++ (job ∷ []) in if elem job ids then ids else more

abbrev pub join_incident : Uuid → Signals → Incident → Incident
join_incident job sig i = record i {
  affected_job_ids = add_job job i.affected_job_ids;
  correlation_signals = i.correlation_signals ++ (sig ∷ []);
}

unfoldable pub attach : Uuid → ℕ → Uuid → Signals → Alerts → Alerts
attach org incident job sig a = record a {
  incidents =
      update_where (λ i. i.id == incident && i.org_id == org) (join_incident job sig) a.incidents;
  incident_events = a.incident_events ++ ((incident, correlated) ∷ []);
}

abbrev pub log_event : ℕ → EventKind → Alerts → Alerts
log_event incident kind a = record a {
  incident_events = a.incident_events ++ ((incident, kind) ∷ []);
}

abbrev pub new_incident : Uuid → ℕ → Uuid → Uuid → Signals → ℕ → Incident
new_incident org now job rule sig id = record {
  id = id;
  org_id = org;
  status = opened;
  started_at = now;
  acknowledged_at = none;
  resolved_at = none;
  affected_job_ids = job ∷ [];
  root_cause = none;
  resolution = none;
  responder_ids = [];
  rule_id = some rule;
  correlation_signals = sig ∷ [];
}

unfoldable pub open_new : Uuid → ℕ → Uuid → Uuid → Signals → Alerts → Alerts
open_new org now job rule sig a = record a {
  incidents = a.incidents ++ (new_incident org now job rule sig a.next_incident ∷ []);
  next_incident = suc a.next_incident;
  incident_events = a.incident_events ++ ((a.next_incident, was_opened) ∷ []);
}

-- The loop over the rule's channels.
abbrev pub queue : List Uuid → DedupKey → Option ℕ → Alerts → Alerts
queue channels key incident a = record a {
  notices =
      a.notices
      ++ map (λ ch. record { channel_id = ch; key = key; incident_id = incident }) channels;
}

-- The incident that a rule reports under, and the tables with it: the job's open one, a related one that it
-- joins, or a new one.
abbrev pub related_or_new : Uuid → ℕ → Uuid → Uuid → Signals → Option Incident → Alerts → ℕ × Alerts
related_or_new org now job rule sig none a = (a.next_incident, open_new org now job rule sig a)
related_or_new org now job rule sig (some rel) a = (rel.id, attach org rel.id job sig a)

abbrev pub report_under : Uuid → ℕ → Uuid → Uuid → Signals → Option Incident → Alerts → ℕ × Alerts
report_under org now job rule sig (some inc) a = (inc.id, log_event inc.id status_changed a)
report_under org now job rule sig none a =
    related_or_new org now job rule sig (find_related_incident org now sig a.incidents) a
