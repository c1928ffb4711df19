-- ===== src/Reports/Events.antt =====
-- `events` of cronsentinel/routers/agents.py: a batch of reports of one agent. A report of a kind that is neither a
-- run's nor `progress` is not modelled.
use jobwatch.Prelude.{
  ℕ, ◌+◌, Bool, true, false, not, Option, none, some, List, [], ◌∷◌, ◌++◌, ◌==◌, if◌then◌else◌,
  any_of, keep_if, update_where, take, is_some,
}
use jobwatch.Db.{Uuid, ExecId, Agent, EventRow, Db}
use jobwatch.Ingest.{Kind, ExecEvent, Env, seen_event}
use jobwatch.Http.{Reply, ok, ◌>>=◌, raise_if}
use jobwatch.Fleet.{AgentPrincipal}
use jobwatch.Reports.{
  JobLink, Sink, emit_all, Reported, progress, of_run, AgentEvent, batch_limit, find_link,
}

-- The event that is published of a report.
unfoldable pub agent_event : ℕ → AgentPrincipal → JobLink → Kind → AgentEvent → ExecEvent
agent_event now a j kind e = record {
  org_id = a.org_id;
  job_id = j.id;
  agent_id = some a.agent_id;
  kind = kind;
  execution_id = e.body.execution_id;
  sequence = e.body.sequence;
  agent_ts = e.body.agent_ts;
  server_ts = some now;
  duration_ms = e.body.duration_ms;
  exit_code = e.body.exit_code;
  host = e.body.host;
  stdout_tail = e.body.stdout_tail;
  stderr_tail = e.body.stderr_tail;
}

pub record Sorted : Type 0 where
  pub out : List ExecEvent
  pub accepted : ℕ
  pub dropped : ℕ

abbrev pub sort_one : ℕ → AgentPrincipal → AgentEvent → Reported → Option JobLink → Sorted → Sorted
sort_one now a e kind none rest = record rest { dropped = rest.dropped + 1 }
sort_one now a e progress (some j) rest = record rest { accepted = rest.accepted + 1 }
sort_one now a e (of_run kind) (some j) rest = record rest {
  out = agent_event now a j kind e ∷ rest.out;
  accepted = rest.accepted + 1;
}

-- The loop over the batch.
unfoldable pub sort_events : ℕ → AgentPrincipal → List JobLink → List AgentEvent → Sorted
unfolding agent_event find_link
sort_events now a links [] = record { out = []; accepted = 0; dropped = 0 }
sort_events now a links (e ∷ es) =
    sort_one now a e e.kind (find_link a.org_id e links) (sort_events now a links es)

abbrev pub is_progress : AgentEvent → Bool
is_progress e = elim e.kind [ progress ↦ true | of_run kind ↦ false ]

-- INSERT INTO execution_events ... ON CONFLICT DO NOTHING, for a report whose identifier is there.
abbrev pub put_progress : ℕ → AgentPrincipal → AgentEvent → Option ExecId → Db → Db
put_progress now a e none db = db
put_progress now a e (some id) db =
    let row : EventRow = record {
      org_id = a.org_id;
      execution_id = id;
      agent_id = some a.agent_id;
      sequence = e.body.sequence;
      server_ts = now;
    } in
    let more = record db { events = db.events ++ (row ∷ []) } in
    if seen_event id e.body.sequence db then db else more

unfoldable pub store_progress : ℕ → AgentPrincipal → List AgentEvent → Db → Db
unfolding seen_event
store_progress now a [] db = db
store_progress now a (e ∷ es) db =
    store_progress now a es (put_progress now a e e.body.execution_id db)

abbrev pub see_agent : ℕ → Uuid → Db → Db
see_agent now id db = record db {
  agents =
      update_where (λ (x : Agent). x.id == id) (λ x. record x { last_seen_at = some now })
        db.agents;
}

-- The session of `_resolve`; a progress report without an execution_id is a KeyError.
unfoldable pub keep_progress : ℕ → AgentPrincipal → List AgentEvent → Db → Reply Db
unfolding store_progress
keep_progress now a evs db =
    let reports = keep_if is_progress evs in
    raise_if (any_of (λ e. not (is_some e.body.execution_id)) reports) 500 >>= λ _.
    ok (see_agent now a.agent_id (store_progress now a reports db))

-- The handler: how many were accepted and dropped, and where the events went.
unfoldable pub events :
    (ExecEvent → Env)
    → ℕ
    → AgentPrincipal
    → List JobLink
    → List AgentEvent
    → Sink
    → Reply ((ℕ × ℕ) × Sink)
unfolding keep_progress sort_events emit_all
events env now a links batch s =
    let evs = take batch_limit batch in
    keep_progress now a evs s.db >>= λ (db : Db).
    let sorted = sort_events now a links evs in
    ok ((sorted.accepted, sorted.dropped), emit_all env sorted.out (record s { db = db }))
