-- ===== src/Consumer.antt =====
-- `drain` of cronsentinel/workers/exec_processor.py, one message at a time: the transaction, the publication, and the
-- acknowledgement. A message that is not acknowledged is delivered again.
pub mod Losses
use jobwatch.Prelude.{ℕ, Bool, true, false, Option, none, some, List, [], ◌∷◌, if◌then◌else◌}
use jobwatch.Db.{Db}
use jobwatch.JobState.{StatusEvent}
use jobwatch.Ingest.{ExecEvent, Env}
use jobwatch.Processor.{handle_one}

-- What happens around one delivery: its instant, whether the session raises (and is rolled back), whether the
-- publication raises, and whether the acknowledgement raises.
pub record Round : Type 0 where
  pub env : Env
  pub session_fails : Bool
  pub publish_fails : Bool
  pub ack_fails : Bool

pub record Handled : Type 0 where
  pub published : Option StatusEvent
  pub acked : Bool
  pub db : Db

-- Behind the commit.
abbrev pub publish : Bool → Bool → Option StatusEvent → Db → Handled
publish fails no_ack none db = record {
  published = none;
  acked = if no_ack then false else true;
  db = db;
}
publish fails no_ack (some res) db = record {
  published = if fails then none else some res;
  acked = if fails then false else if no_ack then false else true;
  db = db;
}

-- One round of the loop over the messages.
unfoldable pub drain_one : ExecEvent → Round → Db → Handled
drain_one ev d db =
    let (res, after) = handle_one d.env ev db in
    if d.session_fails
    then record { published = none; acked = false; db = db }
    else publish d.publish_fails d.ack_fails res after

abbrev pub add_published : Option StatusEvent → List StatusEvent → List StatusEvent
add_published none evs = evs
add_published (some ev) evs = ev ∷ evs

-- The deliveries of one message, until it is acknowledged: what they publish.
unfoldable pub deliveries : ExecEvent → List Round → Db → List StatusEvent
unfolding drain_one
deliveries ev [] db = []
deliveries ev (d ∷ ds) db =
    let h = drain_one ev d db in
    let rest = deliveries ev ds h.db in add_published h.published (if h.acked then [] else rest)
