-- ===== src/Samples/Pages.antt =====
-- Incidents of a small organisation, a change of status, a responder and an API key.
use jobwatch.Prelude.{ℕ, ◌≡◌, refl, inl, inr, Option, none, some, [], ◌∷◌, arith, Bool-cases}
use jobwatch.Http.{Reply, ok}
use jobwatch.Access.{Principal, developer, incident_ack, needs, audit, at_least}
use jobwatch.Rules.{Zones, on_late}
use jobwatch.Engine.{Signals, Incident, opened, was_acknowledged, DedupKey, Alerts, is_open_for}
use jobwatch.Engine.Incidents.{HasOneEach}
use jobwatch.Engine.Handle.{handle_status_change}
use jobwatch.Engine.Sound.{IsSound}
use jobwatch.Engine.Extends.{Extends}
use jobwatch.Engine.Responders.{Desk, ack, acknowledge, add_note, list_incidents}
use jobwatch.Engine.History.{Reach, here, next, acked, status_change, Reach-IsSound, Reach-Extends}
use jobwatch.Engine.Unlisted.{ack-unlisted}
use jobwatch.Samples.Alerts.{rule_on, context, late_news}

abbrev pub noon : Zones
noon = record { local = λ tz now. (3, 43200000000) }

abbrev pub on_host : Signals
on_host = record {
  host = some 80;
  cluster_ns = none;
  deploy_version = none;
  upstream = [];
  downstream = [];
}

-- An open incident of job 2, on the host of job 1.
abbrev pub neighbour : Incident
neighbour = record {
  id = 90;
  org_id = 7;
  status = opened;
  started_at = 3600000000;
  acknowledged_at = none;
  resolved_at = none;
  affected_job_ids = 2 ∷ [];
  root_cause = none;
  resolution = none;
  responder_ids = [];
  rule_id = some 30;
  correlation_signals = on_host ∷ [];
}

abbrev pub alerts : Alerts
alerts = record {
  incidents = neighbour ∷ [];
  next_incident = 91;
  incident_events = [];
  notices = [];
}

abbrev pub nothing_sent : DedupKey → Option ℕ
nothing_sent key = none

alerts-HasOneEach : HasOneEach 7 (neighbour ∷ [])
alerts-HasOneEach job = elim (Bool-cases (is_open_for 7 job neighbour)) [
  | inl t ↦ rw t (omega arith)
  | inr n ↦ rw n (omega arith)
]

alerts-IsSound : IsSound 7 alerts
alerts-IsSound = record { fresh = (omega arith, tt, tt); one_each = alerts-HasOneEach }

-- A developer's API key.
abbrev bot : Principal
bot = record { org_id = 7; role = developer; user_id = none; api_key_id = some 70 }

abbrev desk : Desk
desk = record { alerts = alerts; audit_logs = [] }

abbrev acked_desk : Desk
acked_desk = record {
  alerts = record alerts {
    incidents = acknowledge bot 3650000000 neighbour ∷ [];
    incident_events = (90, was_acknowledged) ∷ [];
  };
  audit_logs = audit bot incident_ack 90 ∷ [];
}

bot_acks : ack 3650000000 bot 90 desk ≡ ok acked_desk
unfolding ack needs at_least
bot_acks = refl

-- Once is enough: the incident is no longer open.
bot_acks_twice : ack 3660000000 bot 90 acked_desk ≡ Reply.raised 409
unfolding ack needs at_least
bot_acks_twice = refl

-- An incident that is not there.
bot_notes : add_note bot 80 desk ≡ Reply.raised 500
unfolding add_note needs at_least
bot_notes = refl

abbrev later_desk : Desk
later_desk = record acked_desk {
  alerts =
      handle_status_change noon late_news 3700000000 [] [] (rule_on on_late ∷ []) on_host
        nothing_sent (some context) acked_desk.alerts;
}

abbrev steps : Reach desk later_desk
steps = next (next here (acked 3650000000 bot 90 bot_acks)) (
    status_change noon late_news 3700000000 [] [] (rule_on on_late ∷ []) on_host nothing_sent
      (some context))

Reach-IsSound_example : IsSound 7 later_desk.alerts
Reach-IsSound_example = Reach-IsSound 7 steps alerts-IsSound

Reach-Extends_example : Extends (neighbour ∷ []) later_desk.alerts.incidents
Reach-Extends_example = Reach-Extends steps

ack-unlisted_example : list_incidents bot none 50 acked_desk ≡ Reply.raised 500
ack-unlisted_example =
    ack-unlisted 3650000000 90 50 bot bot desk acked_desk acked_desk refl bot_acks here refl
      (omega arith)
