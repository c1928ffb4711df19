-- ===== src/Samples/Mails.antt =====
-- Two notifications in one minute, for a channel that takes one.
use jobwatch.Prelude.{
  ℕ, ◌≡◌, ◌≤◌, refl, true, none, some, [], ◌∷◌, map, Mem, Mem-cases, inl, inr, sym, subst, arith,
}
use jobwatch.Rules.{Condition}
use jobwatch.Engine.{DedupKey, plain}
use jobwatch.Notify.{
  Channel, rate_limited, sent, LedgerRow, Outbox, Call, Outcome, arrived, send_notification,
  attempt, record_sent, send_all,
}
use jobwatch.Notify.Rates.{tries, send_all-bounded}

abbrev key : DedupKey
key = record { rule_id = 1; job_id = 1; condition = plain Condition.on_failed }

abbrev outbox : Outbox
outbox = record {
  channels = record { id = 3; org_id = 7; rate_per_min = 1; enabled = true } ∷ [];
  ledger = [];
  incidents = record { id = 5; last_notified_at = none } ∷ [];
  incident_events = [];
  counters = λ i m. 0;
}

abbrev call : ℕ → Call × Outcome
call now = (
  record { now = now; org_id = 7; channel_id = 3; dedup_key = key; incident_id = some 5 },
  arrived,
)

sent_once :
    map (λ (r : LedgerRow). r.status) (send_all (call 1000000 ∷ call 2000000 ∷ []) outbox).ledger
    ≡ (sent ∷ rate_limited ∷ [])
unfolding send_all send_notification attempt record_sent
sent_once = refl

send_all-bounded_example : tries 3 0 (send_all (call 1000000 ∷ call 2000000 ∷ []) outbox) ≤ 1
send_all-bounded_example =
    send_all-bounded 3 0 1 (call 1000000 ∷ call 2000000 ∷ []) outbox within (omega arith)
      (omega arith)
  where
    within : (ch : Channel) → Mem ch outbox.channels → ch.id ≡ 3 → ch.rate_per_min ≤ 1
    within ch m its = elim (Mem-cases m) [
      | inl e ↦ subst (λ (x : Channel). x.rate_per_min ≤ 1) (sym e) (omega arith)
      | inr none_left ↦ elim none_left [ ]
    ]
