-- ===== src/Engine/Sound.antt =====
-- The tables of incidents under `handle_status_change` of alerting/engine.py.
use jobwatch.Prelude.{
  ℕ, ◌≡◌, inl, inr, refl, sym, subst, Bool, false, Option, List, Bool-cases, count_where,
  count_where-skip, ◌==◌, ==_iff,
}
use jobwatch.Db.{Uuid, Window}
use jobwatch.JobState.{StatusEvent}
use jobwatch.Rules.{Rule, JobCtx, Zones}
use jobwatch.Engine.{
  Signals, Incident, DedupKey, Alerts, is_open_for, open_new, attach, new_incident,
}
use jobwatch.Engine.Handle.{auto_resolve, is_good, handle_status_change}
use jobwatch.Engine.Incidents.{HasFreshIds, HasOneEach, open_new-HasOneEach}
use jobwatch.Engine.Joins.{
  attach-HasOneEach, update-HasFreshIds, append-HasFreshIds, resolve-HasOneEach, foreign_attach,
  foreign_resolve,
}
use jobwatch.Engine.Keeps.{IsKept, handle_status_change-Holds}

-- Incidents have their own identifiers, and no job of the organisation is in two open ones.
pub record IsSoundTable (org : Uuid) (next : ℕ) (incidents : List Incident) : Type 0 where
  pub fresh : HasFreshIds next incidents
  pub one_each : HasOneEach org incidents

abbrev pub IsSound : Uuid → Alerts → Type 0
IsSound org a = IsSoundTable org a.next_incident a.incidents

-- The counts of one organisation, where those of another change.
same-HasOneEach :
    (org : Uuid) (xs ys : List Incident)
    → ((j : Uuid) → count_where (is_open_for org j) ys ≡ count_where (is_open_for org j) xs)
    → HasOneEach org xs
    → HasOneEach org ys
same-HasOneEach org xs ys same one j = rw (same j) (one j)

-- What keeps the organisation that it is done for, and changes no count of another, keeps every one.
either_org :
    (org other : Uuid) (xs ys : List Incident)
    → (HasOneEach other xs → HasOneEach other ys)
    → ((other == org) ≡ false
        → (j : Uuid) → count_where (is_open_for org j) ys ≡ count_where (is_open_for org j) xs)
    → HasOneEach org xs
    → HasOneEach org ys
either_org org other xs ys own foreign one = elim (Bool-cases (other == org)) [
  | inl t ↦
      let e : other ≡ org = (==_iff other org).0 t in
      subst (λ o. HasOneEach o ys) e (own (subst (λ o. HasOneEach o xs) (sym e) one))
  | inr f ↦ same-HasOneEach org xs ys (foreign f) one
]

foreign_open :
    (org other now job rule j : ℕ) (sig : Signals) (a : Alerts)
    → (other == org) ≡ false
    → count_where (is_open_for org j) (open_new other now job rule sig a).incidents
      ≡ count_where (is_open_for org j) a.incidents
unfolding open_new is_open_for
foreign_open org other now job rule j sig a differ =
    count_where-skip (is_open_for org j) (new_incident other now job rule sig a.next_incident)
      a.incidents (rw differ refl)

sound-IsKept :
    (org other : Uuid) (now : ℕ) (sig : Signals) (good : Bool)
    → IsKept (IsSoundTable org) other now sig good
sound-IsKept org other now sig good = record {
  opens = λ job rule a s free alone. record {
    fresh =
        unfold open_new in
        append-HasFreshIds a.next_incident (new_incident other now job rule sig a.next_incident)
          a.incidents refl s.fresh;
    one_each =
        either_org org other a.incidents (open_new other now job rule sig a).incidents
          (λ one. open_new-HasOneEach other now job rule sig a one free)
          (λ f j. foreign_open org other now job rule j sig a f) s.one_each;
  };
  joins = λ incident job a s free. record {
    fresh = unfold attach in update-HasFreshIds a.next_incident _ _ a.incidents (λ i. refl) s.fresh;
    one_each =
        either_org org other a.incidents (attach other incident job sig a).incidents
          (λ one. attach-HasOneEach other incident job sig a s.fresh one free)
          (λ f j. foreign_attach org other f incident job j sig a) s.one_each;
  };
  resolves = λ job a t s. record {
    fresh =
        unfold auto_resolve in
        update-HasFreshIds a.next_incident _ _ a.incidents (λ i. refl) s.fresh;
    one_each =
        either_org org other a.incidents (auto_resolve other job now a).incidents
          (λ one. resolve-HasOneEach other job now a one)
          (λ f j. foreign_resolve org other f job j now a) s.one_each;
  };
}

-- A change of status, of whichever organisation, keeps every job of an organisation in at most one open incident, and
-- the identifiers unique, whatever rules fire and whichever incidents are joined, opened or resolved.
pub handle_status_change-IsSound :
    (zones : Zones) (ev : StatusEvent) (now : ℕ) (sig : Signals) (last_sent : DedupKey → Option ℕ)
    (changes : List ℕ) (windows : List Window) (rules : List Rule) (ctx : Option JobCtx)
    (org : Uuid) (a : Alerts)
    → IsSound org a
    → IsSound org (handle_status_change zones ev now changes windows rules sig last_sent ctx a)
handle_status_change-IsSound zones ev now sig last_sent changes windows rules ctx org a =
    handle_status_change-Holds (IsSoundTable org) zones ev now sig last_sent
      (sound-IsKept org ev.org_id now sig (is_good ev.new_status)) changes windows rules ctx a
