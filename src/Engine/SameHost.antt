-- ===== src/Engine/SameHost.antt =====
-- Correlation by host in alerting/engine.py and alerting/correlation.py: a failure on the host of an incident that began
-- lately joins one.
use jobwatch.Prelude.{
  ℕ, ◌+◌, ◌-◌, ◌≤◌, ◌==◌, ==_iff, leb, arith, Mem-append_left, Mem-any_of, ◌≡◌, inl, inr, refl, ◌∙◌,
  true, false, Option, none, some, List, [], ◌∷◌, map, Bool-cases, update_if, map-update_where, Mem,
  update_where-Mem, keep_if-Mem, sort_desc-Mem, find_first-none,
}
use jobwatch.Db.{Uuid, Db}
use jobwatch.JobState.{StatusEvent}
use jobwatch.Rules.{Rule, Zones}
use jobwatch.Dependencies.{Dependency}
use jobwatch.Engine.{
  is_resolved, lookback, Signals, Incident, DedupKey, Alerts, shares, is_related, is_candidate,
  find_related_incident, join_incident, attach,
}
use jobwatch.Engine.Handle.{is_good}
use jobwatch.Engine.Joins.{named}
use jobwatch.Engine.Keeps.{IsKept, handle_status_change-Holds}
use jobwatch.Engine.Context.{
  Columns, EngineState, signals_for_job, job_ctx, record_change, on_status_change,
}

-- An incident that a failure on the host can join: of the organisation, not resolved, begun at most half an hour ago,
-- and with a failure on the host.
pub record IsJoinable (org : Uuid) (now h : ℕ) (i : Incident) : Type 0 where
  pub own : i.org_id ≡ org
  pub going_on : is_resolved i.status ≡ false
  pub recent : now ≤ i.started_at + 1800000000
  pub failure : (prev : Signals) × Mem prev i.correlation_signals × (prev.host ≡ some h)

is_candidate-IsJoinable :
    (org : Uuid) (now h : ℕ) (i : Incident) → IsJoinable org now h i → is_candidate org now i ≡ true
unfolding is_candidate
is_candidate-IsJoinable org now h i join =
    let same : (i.org_id == org) ≡ true = (==_iff i.org_id org).1 join.own in
    let late = join.recent in
    let early : leb (now - lookback) i.started_at ≡ true = ground arith in
    rw (same, join.going_on, early) refl

-- The incidents are the given ones, and one of them can be joined.
pub record IsSame (org : Uuid) (now h next : ℕ) (ids : List ℕ) (n : ℕ) (is : List Incident)
    : Type 0 where
  pub next_id : n ≡ next
  pub all_ids : map (λ (i : Incident). i.id) is ≡ ids
  pub one : (i : Incident) × Mem i is × IsJoinable org now h i

module _ (org : Uuid) (now h : ℕ) (sig : Signals) (on_host : sig.host ≡ some h) where
  related_here : (i : Incident) → IsJoinable org now h i → is_related sig i ≡ true
  unfolding is_related
  related_here i join =
      let (prev, m, there) = join.failure in
      let one : shares sig prev ≡ true = rw (on_host, there, (==_iff h h).1 refl) refl in
      rw (Mem-any_of (shares sig) m one) refl

  -- Where one can be joined, one is found.
  found_here :
      (i : Incident) (is : List Incident)
      → Mem i is
      → IsJoinable org now h i
      → find_related_incident org now sig is ≡ none
      → ⊥
  unfolding find_related_incident
  found_here i is m join none_found =
      let missed = find_first-none (is_related sig) _ none_found i (
        sort_desc-Mem (λ (k : Incident). k.started_at) i _
          (keep_if-Mem (is_candidate org now) is m (is_candidate-IsJoinable org now h i join))) in
      let yes = related_here i join in cc

  join-IsJoinable :
      (job : Uuid) (i : Incident)
      → IsJoinable org now h i
      → IsJoinable org now h (join_incident job sig i)
  join-IsJoinable job i join =
      let (prev, m, there) = join.failure in
      record {
        own = join.own;
        going_on = join.going_on;
        recent = join.recent;
        failure = (prev, Mem-append_left (sig ∷ []) m, there);
      }

  IsSame-IsKept : (next : ℕ) (ids : List ℕ) → IsKept (IsSame org now h next ids) org now sig false
  unfolding attach
  IsSame-IsKept next ids = record {
    opens = λ job rule a s free alone.
        let (i, m, join) = s.one in absurd (found_here i a.incidents m join alone);
    joins = λ incident job a s free. joined incident job a s;
    resolves = λ job a t s. absurd (not_good t);
  }
    where
      not_good : false ≡ true → ⊥
      not_good t = cc

      joined :
          (incident : ℕ) (job : Uuid) (a : Alerts)
          → IsSame org now h next ids a.next_incident a.incidents
          → IsSame org now h next ids
              (attach org incident job sig a).next_incident
              (attach org incident job sig a).incidents
      joined incident job a s = record {
        next_id = s.next_id;
        all_ids =
            map-update_where (λ (i : Incident). i.id) (named org incident) (join_incident job sig)
              a.incidents (λ i. refl)
            ∙ s.all_ids;
        one =
            let (i, m, join) = s.one in
            (
              update_if (named org incident) (join_incident job sig) i,
              update_where-Mem (named org incident) (join_incident job sig) m,
              elim (Bool-cases (named org incident i)) [
                | inl t ↦ rw t (join-IsJoinable job i join)
                | inr f ↦ rw f join
              ],
            );
      }

-- When a job whose last run was on some host changes to a status that is not good, and an incident of its organisation
-- that is not resolved, began at most half an hour ago and has a failure on that host is there, no incident is opened,
-- whatever rules fire.
pub on_status_change-joins :
    (zones : Zones) (db : Db) (deps : List Dependency) (cols : Columns) (rules : List Rule)
    (last_sent : DedupKey → Option ℕ) (ev : StatusEvent) (now h : ℕ) (st : EngineState)
    (i : Incident)
    → is_good ev.new_status ≡ false
    → (signals_for_job db deps cols ev.org_id ev.job_id).host ≡ some h
    → Mem i st.alerts.incidents
    → IsJoinable ev.org_id now h i
    → IsSame ev.org_id now h st.alerts.next_incident
        (map (λ (k : Incident). k.id) st.alerts.incidents)
        (on_status_change zones db deps cols rules last_sent ev now st).alerts.next_incident
        (on_status_change zones db deps cols rules last_sent ev now st).alerts.incidents
unfolding on_status_change
on_status_change-joins zones db deps cols rules last_sent ev now h st i bad on_host m join =
    let sig = signals_for_job db deps cols ev.org_id ev.job_id in
    let ids = map (λ (k : Incident). k.id) st.alerts.incidents in
    handle_status_change-Holds (IsSame ev.org_id now h st.alerts.next_incident ids) zones ev now sig
      last_sent (rw bad (IsSame-IsKept ev.org_id now h sig on_host st.alerts.next_incident ids))
      (record_change now (st.flaps ev.job_id)) db.windows rules
      (job_ctx db cols now ev.org_id ev.job_id) st.alerts
      (record { next_id = refl; all_ids = refl; one = (i, m, join) })
