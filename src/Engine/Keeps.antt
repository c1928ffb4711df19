-- ===== src/Engine/Keeps.antt =====
-- What `handle_status_change` of alerting/engine.py keeps: a predicate of the incidents holds after it if it holds after
-- each of the three ways to change them.
use jobwatch.Prelude.{
  ℕ, ◌≡◌, inl, inr, refl, Bool, true, Option, none, some, List, [], ◌∷◌, Bool-cases, count_where,
  is_some,
}
use jobwatch.Db.{Uuid, Window}
use jobwatch.JobState.{StatusEvent}
use jobwatch.Rules.{Rule, JobCtx, Zones, is_flapping, suppressed_unknown}
use jobwatch.Engine.{
  Signals, Incident, DedupKey, Alerts, is_open_for, open_incident, find_related_incident,
  report_under, related_or_new, open_new, attach,
}
use jobwatch.Engine.Handle.{
  auto_resolve, resolve_if, notify, needs_incident, run_rule, run_rules, passes, is_good,
  in_maintenance, handle_job, handle_status_change,
}
use jobwatch.Engine.Incidents.{open_incident-none}

-- A predicate of the next identifier and the incidents.
abbrev pub Table : Type 1
Table = ℕ → List Incident → Type 0

abbrev pub Holds : Table → Alerts → Type 0
Holds P a = P a.next_incident a.incidents

-- A new incident where none is related, a job that joins one, and the automatic resolution after a good status keep it.
pub record IsKept (P : Table) (org : Uuid) (now : ℕ) (sig : Signals) (good : Bool) : Type 0 where
  pub opens :
      (job rule : Uuid) (a : Alerts)
      → Holds P a
      → count_where (is_open_for org job) a.incidents ≡ 0
      → find_related_incident org now sig a.incidents ≡ none
      → Holds P (open_new org now job rule sig a)
  pub joins :
      (incident : ℕ) (job : Uuid) (a : Alerts)
      → Holds P a
      → count_where (is_open_for org job) a.incidents ≡ 0
      → Holds P (attach org incident job sig a)
  pub resolves :
      (job : Uuid) (a : Alerts) → good ≡ true → Holds P a → Holds P (auto_resolve org job now a)

module _ (P : Table) (org : Uuid) (now : ℕ) (sig : Signals) (good : Bool)
    (keeps : IsKept P org now sig good) where
  related_or_new-Holds :
      (job rule : Uuid) (o : Option Incident) (a : Alerts)
      → find_related_incident org now sig a.incidents ≡ o
      → Holds P a
      → count_where (is_open_for org job) a.incidents ≡ 0
      → Holds P (related_or_new org now job rule sig o a).1
  related_or_new-Holds job rule none a e h free = keeps.opens job rule a h free e
  related_or_new-Holds job rule (some rel) a e h free = keeps.joins rel.id job a h free

  report_under-Holds :
      (job rule : Uuid) (a : Alerts) (o : Option Incident)
      → open_incident org job a.incidents ≡ o
      → Holds P a
      → Holds P (report_under org now job rule sig o a).1
  report_under-Holds job rule a (some inc) e h = h
  report_under-Holds job rule a none e h =
      related_or_new-Holds job rule (find_related_incident org now sig a.incidents) a refl h
        (open_incident-none org job a.incidents e)

  resolve_if-Holds : (job : Uuid) (a : Alerts) → Holds P a → Holds P (resolve_if good org job now a)
  resolve_if-Holds job a h = elim (Bool-cases good) [
    | inl t ↦ rw t (keeps.resolves job a t h)
    | inr f ↦ rw f h
  ]

module _ (P : Table) (zones : Zones) (ev : StatusEvent) (now : ℕ) (sig : Signals)
    (last_sent : DedupKey → Option ℕ)
    (keeps : IsKept P ev.org_id now sig (is_good ev.new_status)) where
  module _ (job : JobCtx) (flaps : Bool) where
    notify-Holds :
        (rule : Rule) (a : Alerts)
        → Holds P a
        → Holds P (notify zones ev now job sig last_sent flaps rule a)
    unfolding notify
    notify-Holds rule a h =
        elim (Bool-cases (needs_incident zones ev now job sig last_sent flaps rule)) [
          | inl t ↦ rw t (
              report_under-Holds P ev.org_id now sig (is_good ev.new_status) keeps job.id rule.id a
                (open_incident ev.org_id job.id a.incidents) refl h)
          | inr n ↦ rw n h
        ]

    run_rule-Holds :
        (rule : Rule) (a : Alerts)
        → Holds P a
        → Holds P (run_rule zones ev now job sig last_sent flaps rule a)
    unfolding run_rule
    run_rule-Holds rule a h = elim (Bool-cases (passes zones ev now job sig last_sent flaps rule)) [
      | inl t ↦ rw t (notify-Holds rule a h)
      | inr n ↦ rw n h
    ]

    run_rules-Holds :
        (rules : List Rule) (a : Alerts)
        → Holds P a
        → Holds P (run_rules zones ev now job sig last_sent flaps rules a)
    unfolding run_rules
    run_rules-Holds [] a h = h
    run_rules-Holds (rule ∷ rules) a h =
        run_rules-Holds rules (run_rule zones ev now job sig last_sent flaps rule a)
          (run_rule-Holds rule a h)

  handle_job-Holds :
      (changes : List ℕ) (windows : List Window) (rules : List Rule) (ctx : Option JobCtx)
      (a : Alerts)
      → Holds P a
      → Holds P (handle_job zones ev now changes windows rules sig last_sent ctx a)
  handle_job-Holds changes windows rules none a h = h
  handle_job-Holds changes windows rules (some job) a h =
      let a' = resolve_if (is_good ev.new_status) ev.org_id job.id now a in
      let h' = resolve_if-Holds P ev.org_id now sig (is_good ev.new_status) keeps job.id a h in
      elim (Bool-cases (in_maintenance ev.org_id windows job now)) [
        | inl t ↦ rw t h'
        | inr n ↦ rw n (run_rules-Holds job (is_flapping changes now 600 3) rules a' h')
      ]

  -- Whatever rules fire and whichever incidents are joined, opened or resolved.
  pub handle_status_change-Holds :
      (changes : List ℕ) (windows : List Window) (rules : List Rule) (ctx : Option JobCtx)
      (a : Alerts)
      → Holds P a
      → Holds P (handle_status_change zones ev now changes windows rules sig last_sent ctx a)
  unfolding handle_status_change
  handle_status_change-Holds changes windows rules ctx a h =
      elim (Bool-cases (is_some (suppressed_unknown ev.new_state ev.unknown_reason))) [
        | inl t ↦ rw t h
        | inr n ↦ rw n (handle_job-Holds changes windows rules ctx a h)
      ]
