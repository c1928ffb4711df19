-- ===== src/Notify.antt =====
-- cronsentinel/alerting/tasks.py: `send_notification`, one try for one channel. What a channel's sender answers is an
-- argument; texts are left out. The counter of a minute in Redis is dropped after that minute.
pub mod Rates
use jobwatch.Prelude.{
  ℕ, zero, suc, ◌+◌, ◌/◌, Bool, true, false, ◌&&◌, not, Option, none, some, List, [], ◌∷◌, ◌++◌,
  ◌==◌, ltb, if◌then◌else◌, find_first, update_where,
}
use jobwatch.Db.{Uuid}
use jobwatch.Engine.{DedupKey}

-- The columns of notification_channels that the task reads.
pub record Channel : Type 0 where
  pub id : Uuid
  pub org_id : Uuid
  pub rate_per_min : ℕ
  pub enabled : Bool

-- The status of a row of notification_ledger; the number is the error that the tenant may see.
pub data Sent : Type 0 where
  rate_limited sent : Sent
  failed : ℕ → Sent

pub record LedgerRow : Type 0 where
  pub org_id : Uuid
  pub incident_id : Option ℕ
  pub channel_id : Uuid
  pub dedup_key : DedupKey
  pub sent_at : ℕ
  pub status : Sent

pub record Notified : Type 0 where
  pub id : ℕ
  pub last_notified_at : Option ℕ

-- The tables, the events 'notified' of incidents, and the counters chrl:<channel>:<minute>.
pub record Outbox : Type 0 where
  pub channels : List Channel
  pub ledger : List LedgerRow
  pub incidents : List Notified
  pub incident_events : List (Uuid × ℕ × Sent)
  pub counters : Uuid → ℕ → ℕ

-- The arguments of the task; `now` is in microseconds.
pub record Call : Type 0 where
  pub now : ℕ
  pub org_id : Uuid
  pub channel_id : Uuid
  pub dedup_key : DedupKey
  pub incident_id : Option ℕ

-- What comes of `decrypt_json` and the sender: an exception of the former is not caught.
pub data Outcome : Type 0 where
  unreadable arrived : Outcome
  refused : ℕ → Outcome

-- How the task ends: `self.retry` runs it again, up to five times.
pub data Ended : Type 0 where
  done crashed again : Ended

-- strftime('%Y%m%d%H%M')
abbrev pub minute : ℕ → ℕ
minute now = now / 60000000

abbrev pub is_channel : Uuid → Uuid → Channel → Bool
is_channel org id ch = ch.id == id && ch.org_id == org

-- INCR
abbrev pub count_up : Uuid → ℕ → (Uuid → ℕ → ℕ) → Uuid → ℕ → ℕ
count_up id m counters i k = if i == id && k == m then counters i k + 1 else counters i k

-- INSERT INTO notification_ledger
abbrev pub ledger_row : Call → Sent → LedgerRow
ledger_row c status = record {
  org_id = c.org_id;
  incident_id = c.incident_id;
  channel_id = c.channel_id;
  dedup_key = c.dedup_key;
  sent_at = c.now;
  status = status;
}

abbrev pub note_incident : Call → Sent → Option ℕ → Outbox → Outbox
note_incident c status none o = o
note_incident c status (some i) o = record o {
  incidents =
      update_where (λ (r : Notified). r.id == i) (λ r. record r { last_notified_at = some c.now })
        o.incidents;
  incident_events = o.incident_events ++ ((c.org_id, i, status) ∷ []);
}

-- The session behind the sender.
unfoldable pub record_sent : Call → Sent → Outbox → Outbox
record_sent c status o =
    note_incident c status c.incident_id
      (record o { ledger = o.ledger ++ (ledger_row c status ∷ []) })

unfoldable pub attempt : Call → Outcome → Outbox → Ended × Outbox
unfolding record_sent
attempt c unreadable o = (crashed, o)
attempt c arrived o = (done, record_sent c sent o)
attempt c (refused error) o = (again, record_sent c (failed error) o)

-- Behind the counter of the minute, which has this value.
abbrev pub counted : Call → Outcome → Channel → ℕ → Outbox → Ended × Outbox
counted c outcome ch n o =
    let limited : Ended × Outbox =
      (done, record o { ledger = o.ledger ++ (ledger_row c rate_limited ∷ []) }) in
    if ltb ch.rate_per_min n then limited else attempt c outcome o

abbrev pub behind_channel : Call → Outcome → Option Channel → Outbox → Ended × Outbox
behind_channel c outcome none o = (done, o)
behind_channel c outcome (some ch) o =
    let m = minute c.now in
    let up = record o { counters = count_up c.channel_id m o.counters } in
    let n = o.counters c.channel_id m + 1 in
    let on = counted c outcome ch n up in if ch.enabled then on else (done, o)

unfoldable pub send_notification : Call → Outcome → Outbox → Ended × Outbox
unfolding attempt
send_notification c outcome o =
    behind_channel c outcome (find_first (is_channel c.org_id c.channel_id) o.channels) o

-- Tries of the workers, of whatever tasks and their retries, one after the other.
unfoldable pub send_all : List (Call × Outcome) → Outbox → Outbox
unfolding send_notification
send_all [] o = o
send_all ((c, outcome) ∷ rest) o = send_all rest (send_notification c outcome o).1
