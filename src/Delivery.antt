-- ===== src/Delivery.antt =====
-- cronsentinel/outbound/deliver.py: one try to deliver a signal, and the tries of one task. The request itself is an
-- argument: the status code, or nothing where it raises.
pub mod Counts
use jobwatch.Prelude.{
  ℕ, zero, suc, ◌+◌, Bool, true, false, ◌&&◌, not, Option, none, some, List, [], ◌∷◌, ◌++◌, ◌==◌,
  ltb, leb, if◌then◌else◌, any_of, find_first, update_where,
}
use jobwatch.Db.{Uuid}

abbrev pub max_attempts : ℕ
max_attempts = 6

abbrev pub auto_disable_after : ℕ
auto_disable_after = 20

pub data TargetKind : Type 0 where
  webhook nats unknown_kind : TargetKind

-- A row of signal_destinations.
pub record Target : Type 0 where
  pub id : Uuid
  pub org_id : Uuid
  pub kind : TargetKind
  pub enabled : Bool
  pub consecutive_failures : ℕ

pub data DeliveryStatus : Type 0 where
  pending sent failed dead : DeliveryStatus

-- A row of signal_deliveries, unique on the destination and the signal.
pub record DeliveryRow : Type 0 where
  pub org_id : Uuid
  pub destination_id : Uuid
  pub signal_id : ℕ
  pub status : DeliveryStatus
  pub attempts : ℕ
  pub response_code : Option ℕ

pub record Outbox : Type 0 where
  pub targets : List Target
  pub deliveries : List DeliveryRow

abbrev pub is_delivery : Uuid → ℕ → DeliveryRow → Bool
is_delivery dest sid d = d.destination_id == dest && d.signal_id == sid

abbrev pub count_try : DeliveryRow → DeliveryRow
count_try d = record d { attempts = suc d.attempts }

-- INSERT ... ON CONFLICT (destination_id, signal_id) DO UPDATE
unfoldable pub record_try : Uuid → Uuid → ℕ → Outbox → Outbox
record_try org dest sid o =
    let again = update_where (is_delivery dest sid) count_try o.deliveries in
    let first : DeliveryRow = record {
      org_id = org;
      destination_id = dest;
      signal_id = sid;
      status = pending;
      attempts = 1;
      response_code = none;
    } in
    let new = o.deliveries ++ (first ∷ []) in
    record o { deliveries = if any_of (is_delivery dest sid) o.deliveries then again else new }

-- A code below 400; every other kind of destination raises.
abbrev pub accepted : Option ℕ → Option ℕ
accepted none = none
accepted (some code) = if leb 400 code then none else some code

abbrev pub post_to : TargetKind → Option ℕ → Option ℕ
post_to webhook reply = accepted reply
post_to _ reply = none

abbrev pub set_delivery : Uuid → ℕ → (DeliveryRow → DeliveryRow) → Outbox → Outbox
set_delivery dest sid f o = record o {
  deliveries = update_where (is_delivery dest sid) f o.deliveries;
}

abbrev pub set_target : Uuid → (Target → Target) → Outbox → Outbox
set_target dest f o = record o { targets = update_where (λ t. t.id == dest) f o.targets }

abbrev pub reset : Target → Target
reset t = record t { consecutive_failures = 0 }

-- The UPDATE after the last try.
abbrev pub count_dead : Target → Target
count_dead t = record t {
  consecutive_failures = suc t.consecutive_failures;
  enabled = if leb auto_disable_after (suc t.consecutive_failures) then false else t.enabled;
}

abbrev pub mark_sent : ℕ → DeliveryRow → DeliveryRow
mark_sent code d = record d { status = sent; response_code = some code }

abbrev pub mark_failed : Bool → DeliveryRow → DeliveryRow
mark_failed final d = record d { status = if final then dead else failed }

abbrev pub is_final_try : ℕ → Bool
is_final_try retries = leb max_attempts retries

-- The two sessions after the request: whether the task raises, and the tables.
unfoldable pub conclude_try : ℕ → Uuid → ℕ → Option ℕ → Outbox → Bool × Outbox
conclude_try retries dest sid (some code) o =
    (false, set_target dest reset (set_delivery dest sid (mark_sent code) o))
conclude_try retries dest sid none o =
    let marked = set_delivery dest sid (mark_failed (is_final_try retries)) o in
    (true, if is_final_try retries then set_target dest count_dead marked else marked)

abbrev pub find_target : Uuid → Uuid → Outbox → Option Target
find_target org dest o = find_first (λ t. t.id == dest && t.org_id == org) o.targets

abbrev pub try_target : ℕ → Uuid → Uuid → ℕ → Option ℕ → Option Target → Outbox → Bool × Outbox
try_target retries org dest sid reply none o = (false, o)
try_target retries org dest sid reply (some t) o =
    let tried = conclude_try retries dest sid (post_to t.kind reply) (record_try org dest sid o) in
    if t.enabled then tried else (false, o)

unfoldable pub deliver_signal : ℕ → Uuid → Uuid → ℕ → Option ℕ → Outbox → Bool × Outbox
deliver_signal retries org dest sid reply o =
    try_target retries org dest sid reply (find_target org dest o) o

-- The tries of one task: celery runs it again while it raises, up to `max_retries`; `room` is how many
-- retries are left, and `replies n` is what the request of try `n` brings.
unfoldable pub run_task : ℕ → ℕ → Uuid → Uuid → ℕ → (ℕ → Option ℕ) → Outbox → Outbox
run_task zero retries org dest sid replies o =
    (deliver_signal retries org dest sid (replies retries) o).1
run_task (suc room) retries org dest sid replies o =
    let (raised, after) = deliver_signal retries org dest sid (replies retries) o in
    let again = run_task room (suc retries) org dest sid replies after in
    if raised then again else after
