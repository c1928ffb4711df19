-- ===== src/Engine/Notices.antt =====
-- Which notifications `handle_status_change` of alerting/engine.py queues.
use jobwatch.Prelude.{
  ℕ, ◌≡◌, inl, inr, refl, sym, ap, ◌∙◌, Bool, Option, none, some, List, [], ◌∷◌, ◌++◌, map,
  Bool-cases, if◌then◌else◌,
}
use mathlib.Core.List.{append-nil, append_assoc}
use jobwatch.Db.{Uuid}
use jobwatch.JobState.{StatusEvent}
use jobwatch.Rules.{Rule, JobCtx, Zones}
use jobwatch.Engine.{
  Signals, Incident, DedupKey, Notice, Alerts, open_incident, find_related_incident, report_under,
  related_or_new, queue, open_new, attach,
}
use jobwatch.Engine.Handle.{key_of, passes, notify, needs_incident, run_rule, run_rules}

-- A notification without the incident that it is reported under.
abbrev pub addressed : Notice → Uuid × DedupKey
addressed n = (n.channel_id, n.key)

map-append : (xs ys : List Notice) → map addressed (xs ++ ys) ≡ map addressed xs ++ map addressed ys
map-append [] ys = refl
map-append (x ∷ xs) ys = ap (λ l. addressed x ∷ l) (map-append xs ys)

-- Every channel, under one key.
abbrev pub to_channels : DedupKey → List Uuid → List (Uuid × DedupKey)
to_channels key [] = []
to_channels key (ch ∷ chs) = (ch, key) ∷ to_channels key chs

queue-addressed :
    (channels : List Uuid) (key : DedupKey) (incident : Option ℕ) (a : Alerts)
    → map addressed (queue channels key incident a).notices
      ≡ map addressed a.notices ++ to_channels key channels
queue-addressed channels key incident a =
    map-append a.notices _ ∙ ap (λ l. map addressed a.notices ++ l) (each channels)
  where
    each :
        (chs : List Uuid)
        → map addressed
            (map (λ ch. record { channel_id = ch; key = key; incident_id = incident }) chs)
          ≡ to_channels key chs
    each [] = refl
    each (ch ∷ chs) = ap (λ l. (ch, key) ∷ l) (each chs)

-- No branch for the incident touches the queue.
report_under-notices :
    (org : Uuid) (now : ℕ) (job rule : Uuid) (sig : Signals) (o : Option Incident) (a : Alerts)
    → (report_under org now job rule sig o a).1.notices ≡ a.notices
report_under-notices org now job rule sig (some inc) a = refl
report_under-notices org now job rule sig none a =
    related (find_related_incident org now sig a.incidents)
  where
    related :
        (o : Option Incident) → (related_or_new org now job rule sig o a).1.notices ≡ a.notices
    related none = unfold open_new in refl
    related (some rel) = unfold attach in refl

module _ (zones : Zones) (ev : StatusEvent) (now : ℕ) (job : JobCtx) (sig : Signals)
    (last_sent : DedupKey → Option ℕ) (flaps : Bool) where
  notify-addressed :
      (rule : Rule) (a : Alerts)
      → map addressed (notify zones ev now job sig last_sent flaps rule a).notices
        ≡ map addressed a.notices
          ++ to_channels (key_of zones ev now job sig last_sent flaps rule) rule.channel_ids
  unfolding notify
  notify-addressed rule a =
      elim (Bool-cases (needs_incident zones ev now job sig last_sent flaps rule)) [
        | inl t ↦ rw t (
            let report =
              report_under ev.org_id now job.id rule.id sig
                (open_incident ev.org_id job.id a.incidents) a in
            queue-addressed rule.channel_ids (key_of zones ev now job sig last_sent flaps rule)
              (some report.0) report.1
            ∙ ap
                (λ l.
                  map addressed l
                  ++ to_channels (key_of zones ev now job sig last_sent flaps rule)
                      rule.channel_ids)
                (report_under-notices ev.org_id now job.id rule.id sig
                  (open_incident ev.org_id job.id a.incidents) a))
        | inr n ↦ rw n (
            queue-addressed rule.channel_ids (key_of zones ev now job sig last_sent flaps rule) none
              a)
      ]

  -- What one rule sends.
  pub sent : Rule → List (Uuid × DedupKey)
  sent rule =
      if passes zones ev now job sig last_sent flaps rule
      then to_channels (key_of zones ev now job sig last_sent flaps rule) rule.channel_ids
      else []

  -- What the rules send, in their order.
  pub expected : List Rule → List (Uuid × DedupKey)
  expected [] = []
  expected (rule ∷ rules) = sent rule ++ expected rules

  run_rule-addressed :
      (rule : Rule) (a : Alerts)
      → map addressed (run_rule zones ev now job sig last_sent flaps rule a).notices
        ≡ map addressed a.notices ++ sent rule
  unfolding run_rule sent
  run_rule-addressed rule a = elim (Bool-cases (passes zones ev now job sig last_sent flaps rule)) [
    | inl t ↦ rw t (notify-addressed rule a)
    | inr n ↦ rw n (sym (append-nil (map addressed a.notices)))
  ]

  -- Every rule that passes its four tests notifies each of its channels once, under its key, in the order of the
  -- rules, and no other rule does: whatever incidents are open, joined or new.
  pub run_rules-addressed :
      (rules : List Rule) (a : Alerts)
      → map addressed (run_rules zones ev now job sig last_sent flaps rules a).notices
        ≡ map addressed a.notices ++ expected rules
  unfolding run_rules expected
  run_rules-addressed [] a = sym (append-nil (map addressed a.notices))
  run_rules-addressed (rule ∷ rules) a =
      run_rules-addressed rules (run_rule zones ev now job sig last_sent flaps rule a)
      ∙ ap (λ l. l ++ expected rules) (run_rule-addressed rule a)
      ∙ append_assoc (map addressed a.notices) (sent rule) (expected rules)
