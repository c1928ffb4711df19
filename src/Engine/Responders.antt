-- ===== src/Engine/Responders.antt =====
-- cronsentinel/routers/incidents.py: what responders do to an incident, and the list of incidents. Only the rows of the
-- caller's organisation are visible, as row-level security has it; the payloads of events are left out.
use jobwatch.Prelude.{
  ℕ, Bool, true, false, ◌&&◌, not, Option, none, some, List, [], ◌∷◌, ◌++◌, ◌==◌, leb,
  if◌then◌else◌, keep_if, any_of, update_where, sort_desc, take, is_some,
}
use jobwatch.Http.{Reply, ok, ◌>>=◌, raise_if}
use jobwatch.Access.{
  Principal, AuditRow, developer, incident_ack, incident_resolve, needs, audit, or_else,
}
use jobwatch.Engine.{
  Incident, IncidentStatus, opened, acknowledged, resolved, was_acknowledged, note, was_resolved,
  written, Alerts, is_resolved, log_event,
}

-- The tables that the handlers write.
pub record Desk : Type 0 where
  pub alerts : Alerts
  pub audit_logs : List AuditRow

abbrev pub is_opened : IncidentStatus → Bool
is_opened opened = true
is_opened _ = false

-- WHERE id=:id AND status='open'
abbrev pub can_ack : Principal → ℕ → Incident → Bool
can_ack p id i = (i.org_id == p.org_id && i.id == id) && is_opened i.status

-- acknowledged_at=COALESCE(acknowledged_at, now()), responder_ids=array_append(responder_ids, :u)
abbrev pub acknowledge : Principal → ℕ → Incident → Incident
acknowledge p now i = record i {
  status = acknowledged;
  acknowledged_at = or_else i.acknowledged_at (some now);
  responder_ids = i.responder_ids ++ (p.user_id ∷ []);
}

abbrev pub write_incidents : (Incident → Bool) → (Incident → Incident) → Alerts → Alerts
write_incidents rows f a = record a { incidents = update_where rows f a.incidents }

unfoldable pub ack : ℕ → Principal → ℕ → Desk → Reply Desk
ack now p id d = needs developer p >>= λ _.
    raise_if (not (any_of (can_ack p id) d.alerts.incidents)) 409 >>= λ _. ok (record d {
      alerts =
          log_event id was_acknowledged
            (write_incidents (can_ack p id) (acknowledge p now) d.alerts);
      audit_logs = d.audit_logs ++ (audit p incident_ack id ∷ []);
    })

-- ResolveIn, with its texts as numbers.
pub record ResolveIn : Type 0 where
  pub resolution : ℕ
  pub root_cause : Option ℕ

-- WHERE id=:id AND status<>'resolved'
abbrev pub can_resolve : Principal → ℕ → Incident → Bool
can_resolve p id i = (i.org_id == p.org_id && i.id == id) && not (is_resolved i.status)

abbrev pub close : ℕ → ResolveIn → Incident → Incident
close now body i = record i {
  status = resolved;
  resolved_at = some now;
  resolution = some (written body.resolution);
  root_cause = or_else body.root_cause i.root_cause;
}

unfoldable pub resolve : ℕ → Principal → ℕ → ResolveIn → Desk → Reply Desk
resolve now p id body d = needs developer p >>= λ _.
    raise_if (not (any_of (can_resolve p id) d.alerts.incidents)) 409 >>= λ _. ok (record d {
      alerts =
          log_event id was_resolved (write_incidents (can_resolve p id) (close now body) d.alerts);
      audit_logs = d.audit_logs ++ (audit p incident_resolve id ∷ []);
    })

-- The foreign key asks for an incident of any organisation; without one, the INSERT fails and the answer is 500.
unfoldable pub add_note : Principal → ℕ → Desk → Reply Desk
add_note p id d = needs developer p >>= λ _.
    raise_if (not (any_of (λ (i : Incident). i.id == id) d.alerts.incidents)) 500 >>= λ _.
    ok (record d { alerts = log_event id note d.alerts })

abbrev pub same_status : IncidentStatus → IncidentStatus → Bool
same_status opened opened = true
same_status acknowledged acknowledged = true
same_status resolved resolved = true
same_status _ _ = false

-- The rows of the caller's organisation, of one status if the query names one.
abbrev pub in_list : Principal → Option IncidentStatus → Incident → Bool
in_list p status i =
    i.org_id == p.org_id && elim status [ none ↦ true | some st ↦ same_status i.status st ]

-- min(limit, 200)
abbrev pub page_limit : ℕ → ℕ
page_limit limit = if leb limit 200 then limit else 200

abbrev pub page : Principal → Option IncidentStatus → ℕ → List Incident → List Incident
page p status limit incidents =
    take (page_limit limit)
      (sort_desc (λ (i : Incident). i.started_at) (keep_if (in_list p status) incidents))

-- A row that IncidentOut does not take: its `responder_ids` is a list of identifiers without NULL.
abbrev pub has_null : Incident → Bool
has_null i = any_of (λ r. not (is_some r)) i.responder_ids

-- A row that the response model does not take makes the answer 500.
unfoldable pub list_incidents : Principal → Option IncidentStatus → ℕ → Desk → Reply (List Incident)
list_incidents p status limit d =
    let rows = page p status limit d.alerts.incidents in
    raise_if (any_of has_null rows) 500 >>= λ _. ok rows
