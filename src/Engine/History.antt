-- ===== src/Engine/History.antt =====
-- Any sequence of changes of status, acknowledgements, resolutions and notes, of whichever organisations and callers:
-- alerting/engine.py and routers/incidents.py on one table of incidents.
use jobwatch.Prelude.{
  ℕ, ◌≡◌, refl, subst, Bool, true, not, Option, List, update_where, any_of, arith, ◌==◌,
}
use jobwatch.Db.{Uuid, Window}
use jobwatch.JobState.{StatusEvent}
use jobwatch.Rules.{Rule, JobCtx, Zones}
use jobwatch.Http.{ok, past-guard, past-part, ok-injective}
use jobwatch.Access.{Principal, developer, needs}
use jobwatch.Engine.{Signals, Incident, DedupKey, Alerts, is_open_for}
use jobwatch.Engine.Handle.{is_good, handle_status_change}
use jobwatch.Engine.Joins.{update-HasFreshIds, count_where-update_fewer}
use jobwatch.Engine.Sound.{IsSoundTable, IsSound, handle_status_change-IsSound}
use jobwatch.Engine.Keeps.{Table, Holds, handle_status_change-Holds}
use jobwatch.Engine.Extends.{
  Extends, Extends-refl, Extends-trans, Extends-update_where, acknowledge-Follows, close-Follows,
  Extends-IsKept, opened_early,
}
use jobwatch.Engine.Responders.{
  Desk, can_ack, acknowledge, can_resolve, close, ResolveIn, ack, resolve, add_note,
}

-- What can happen next. A request that is refused changes nothing, and is no step.
pub data Step (d : Desk) : Desk → Type 0 where
  status_change :
      (zones : Zones) (ev : StatusEvent) (now : ℕ) (changes : List ℕ) (windows : List Window)
      (rules : List Rule) (sig : Signals) (last_sent : DedupKey → Option ℕ) (ctx : Option JobCtx)
      → Step d (record d {
        alerts = handle_status_change zones ev now changes windows rules sig last_sent ctx d.alerts;
      })
  acked : {e : Desk} (now : ℕ) (p : Principal) (id : ℕ) → ack now p id d ≡ ok e → Step d e
  closed :
      {e : Desk} (now : ℕ) (p : Principal) (id : ℕ) (body : ResolveIn)
      → resolve now p id body d ≡ ok e
      → Step d e
  noted : {e : Desk} (p : Principal) (id : ℕ) → add_note p id d ≡ ok e → Step d e

pub data Reach (d : Desk) : Desk → Type 0 where
  here : Reach d d
  next : {e f : Desk} → Reach d e → Step e f → Reach d f

-- What an answered request has written.
module _ (P : Table) (d e : Desk) where
  ack-Holds :
      (now id : ℕ) (p : Principal)
      → P d.alerts.next_incident
          (update_where (can_ack p id) (acknowledge p now) d.alerts.incidents)
      → ack now p id d ≡ ok e
      → Holds P e.alerts
  unfolding ack
  ack-Holds now id p h done =
      let (_, _, rest) = past-part (needs developer p) _ done in
      let (_, end) = past-guard (not (any_of (can_ack p id) d.alerts.incidents)) 409 _ rest in
      subst (λ (x : Desk). Holds P x.alerts) (ok-injective end) h

  resolve-Holds :
      (now id : ℕ) (p : Principal) (body : ResolveIn)
      → P d.alerts.next_incident
          (update_where (can_resolve p id) (close now body) d.alerts.incidents)
      → resolve now p id body d ≡ ok e
      → Holds P e.alerts
  unfolding resolve
  resolve-Holds now id p body h done =
      let (_, _, rest) = past-part (needs developer p) _ done in
      let (_, end) = past-guard (not (any_of (can_resolve p id) d.alerts.incidents)) 409 _ rest in
      subst (λ (x : Desk). Holds P x.alerts) (ok-injective end) h

  add_note-Holds :
      (id : ℕ) (p : Principal) → Holds P d.alerts → add_note p id d ≡ ok e → Holds P e.alerts
  unfolding add_note
  add_note-Holds id p h done =
      let (_, _, rest) = past-part (needs developer p) _ done in
      let (_, end) =
        past-guard (not (any_of (λ (i : Incident). i.id == id) d.alerts.incidents)) 500 _ rest in
      subst (λ (x : Desk). Holds P x.alerts) (ok-injective end) h

-- The rows that a responder writes keep their identifiers and come to be open for no other job.
update-IsSound :
    (org : Uuid) (a : Alerts) (q : Incident → Bool) (f : Incident → Incident)
    → ((i : Incident) → (f i).id ≡ i.id)
    → ((i : Incident) (j : Uuid)
        → q i ≡ true
        → is_open_for org j (f i) ≡ true
        → is_open_for org j i ≡ true)
    → IsSound org a
    → IsSoundTable org a.next_incident (update_where q f a.incidents)
update-IsSound org a q f keep opens s = record {
  fresh = update-HasFreshIds a.next_incident q f a.incidents keep s.fresh;
  one_each = λ j. omega (
    arith,
    count_where-update_fewer (is_open_for org j) q f a.incidents (λ i. opens i j),
    s.one_each j,
  );
}

Step-IsSound : (org : Uuid) {d e : Desk} → Step d e → IsSound org d.alerts → IsSound org e.alerts
unfolding is_open_for
Step-IsSound org {d} (status_change zones ev now changes windows rules sig last_sent ctx) s =
    handle_status_change-IsSound zones ev now sig last_sent changes windows rules ctx org d.alerts s
Step-IsSound org {d} {e} (acked now p id done) s =
    ack-Holds (IsSoundTable org) d e now id p
      (update-IsSound org d.alerts (can_ack p id) (acknowledge p now) (λ i. refl)
        (λ i j q h. let early = (opened_early i.status (ground arith)).1 in ground arith) s)
      done
Step-IsSound org {d} {e} (closed now p id body done) s =
    resolve-Holds (IsSoundTable org) d e now id p body
      (update-IsSound org d.alerts (can_resolve p id) (close now body) (λ i. refl)
        (λ i j q h. ground arith) s)
      done
Step-IsSound org {d} {e} (noted p id done) s = add_note-Holds (IsSoundTable org) d e id p s done

-- In whatever order statuses change and responders acknowledge, resolve and note, no job of the organisation comes to
-- be in two open incidents, and the identifiers stay unique.
pub Reach-IsSound :
    (org : Uuid) {d e : Desk} → Reach d e → IsSound org d.alerts → IsSound org e.alerts
Reach-IsSound org here s = s
Reach-IsSound org (next r st) s = Step-IsSound org st (Reach-IsSound org r s)

Step-Extends : {d e : Desk} → Step d e → Extends d.alerts.incidents e.alerts.incidents
Step-Extends {d} (status_change zones ev now changes windows rules sig last_sent ctx) =
    handle_status_change-Holds (λ n is. Extends d.alerts.incidents is) zones ev now sig last_sent
      (Extends-IsKept d.alerts.incidents ev.org_id now sig (is_good ev.new_status)) changes windows
      rules ctx d.alerts (Extends-refl d.alerts.incidents)
Step-Extends {d} {e} (acked now p id done) =
    ack-Holds (λ n is. Extends d.alerts.incidents is) d e now id p
      (Extends-update_where (can_ack p id) (acknowledge p now) d.alerts.incidents
        (acknowledge-Follows now id p))
      done
Step-Extends {d} {e} (closed now p id body done) =
    resolve-Holds (λ n is. Extends d.alerts.incidents is) d e now id p body
      (Extends-update_where (can_resolve p id) (close now body) d.alerts.incidents
        (close-Follows now id p body))
      done
Step-Extends {d} {e} (noted p id done) =
    add_note-Holds (λ n is. Extends d.alerts.incidents is) d e id p
      (Extends-refl d.alerts.incidents) done

-- In whatever order statuses change and responders acknowledge, resolve and note, every incident stays in its place with
-- its identifier, organisation, start and rule; its status never goes back, no job, no responder and no time of
-- acknowledgement is lost, and once it is resolved its status, times, resolution, cause and responders stay.
pub Reach-Extends : {d e : Desk} → Reach d e → Extends d.alerts.incidents e.alerts.incidents
Reach-Extends {d} here = Extends-refl d.alerts.incidents
Reach-Extends {d} {e} (next {e = m} r st) =
    Extends-trans d.alerts.incidents m.alerts.incidents e.alerts.incidents (Reach-Extends r)
      (Step-Extends st)
