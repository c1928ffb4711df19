-- ===== src/Ingest.antt =====
-- The statements of `process` in cronsentinel/processor.py, one function for each: what an execution
-- event writes to execution_events, executions and execution_logs. `now()` and `datetime.now(UTC)` are one
-- instant of the environment, which also gives the new ULID, the redaction of
-- cronsentinel/redaction.py and the configured cap of a log.
use jobwatch.Prelude.{
  ℕ, ◌-◌, max, Bool, true, false, ◌&&◌, Option, none, some, List, [], ◌∷◌, ◌++◌, ◌==◌, leb,
  if◌then◌else◌, any_of, update_where, coalesce, length, drop, truthy,
}
use jobwatch.Prelude.Int.{ℤ, millis_between, millis_before, nonzero_or}
use jobwatch.Db.{
  Uuid, ExecId, ExecStatus, Execution, EventRow, Stream, stdout, stderr, LogRow, Db, eq_exec,
}

pub data Kind : Type 0 where
  start success fail : Kind

-- The payload of exec.*; `none` is a missing key or a null.
pub record ExecEvent : Type 0 where
  pub org_id : Uuid
  pub job_id : Uuid
  pub agent_id : Option Uuid
  pub kind : Kind
  pub execution_id : Option ExecId
  pub sequence : ℕ
  pub agent_ts : Option ℕ
  pub server_ts : Option ℕ
  pub duration_ms : Option ℤ
  pub exit_code : Option ℤ
  pub host : Option ℕ
  pub stdout_tail : Option (List ℕ)
  pub stderr_tail : Option (List ℕ)

pub record Env : Type 0 where
  pub now : ℕ
  pub new_id : ExecId
  pub redact : List ℕ → List ℕ
  pub max_log_bytes : ℕ

abbrev pub eq_stream : Stream → Stream → Bool
eq_stream stdout stdout = true
eq_stream stderr stderr = true
eq_stream _ _ = false

-- _ORDER, and the CASE over the stored status.
abbrev pub rank : ExecStatus → ℕ
rank ExecStatus.scheduled = 0
rank ExecStatus.running = 1
rank _ = 2

-- INSERT INTO execution_events ... ON CONFLICT DO NOTHING RETURNING 1
abbrev pub same_event : ExecId → ℕ → EventRow → Bool
same_event exec_id seq r = eq_exec r.execution_id exec_id && r.sequence == seq

unfoldable pub seen_event : ExecId → ℕ → Db → Bool
seen_event exec_id seq db = any_of (same_event exec_id seq) db.events

-- A conflict on the primary key (id, scheduled_ts) of executions.
abbrev pub same_execution : ExecId → ℕ → Execution → Bool
same_execution exec_id ts e = eq_exec e.id exec_id && e.scheduled_ts == ts

-- id=:id AND org_id=:org
abbrev pub is_run_of : ExecId → Uuid → Execution → Bool
is_run_of exec_id org e = eq_exec e.id exec_id && e.org_id == org

module _ (ev : ExecEvent) (exec_id : ExecId) (server_ts : ℕ) where
  -- `agent_ts or server_ts`
  unfoldable pub event_ts : ℕ
  event_ts = coalesce ev.agent_ts server_ts

  unfoldable pub skew : ℤ
  skew = elim ev.agent_ts [ none ↦ ℤ.pos 0 | some agent_ts ↦ millis_between server_ts agent_ts ]

  unfoldable pub event_row : EventRow
  event_row = record {
    org_id = ev.org_id;
    execution_id = exec_id;
    agent_id = ev.agent_id;
    sequence = ev.sequence;
    server_ts = server_ts;
  }

  unfoldable pub record_event : Db → Db
  unfolding event_row
  record_event db = record db { events = db.events ++ (event_row ∷ []) }

  -- The row of a started execution.
  unfoldable pub started_row : Execution
  unfolding event_ts skew
  started_row = record {
    id = exec_id;
    org_id = ev.org_id;
    job_id = ev.job_id;
    agent_id = ev.agent_id;
    status = ExecStatus.running;
    scheduled_ts = event_ts;
    agent_ts_start = some event_ts;
    agent_ts_end = none;
    server_received_ts = server_ts;
    skew_ms = skew;
    duration_ms = none;
    exit_code = none;
    host = ev.host;
    sequence_max = ev.sequence;
    expected_run_id = none;
    failure_reason = none;
  }

  unfoldable pub restarted : Execution → Execution
  unfolding event_ts
  restarted e = record e {
    status = ExecStatus.running;
    agent_ts_start = some event_ts;
    sequence_max = max e.sequence_max ev.sequence;
  }

  -- INSERT ... ON CONFLICT (id, scheduled_ts) DO UPDATE
  unfoldable pub upsert_start : Db → Db
  unfolding started_row restarted event_ts
  upsert_start db =
      let old = update_where (same_execution exec_id event_ts) restarted db.executions in
      let new = db.executions ++ (started_row ∷ []) in
      record db {
        executions = if any_of (same_execution exec_id event_ts) db.executions then old else new;
      }

  -- `duration_ms or (end - start, if there is a start)`
  unfoldable pub measured : Option ℕ → Option ℤ
  unfolding event_ts
  measured begin =
      nonzero_or ev.duration_ms
        (elim begin [ none ↦ none | some t ↦ some (millis_between event_ts t) ])

  unfoldable pub finished : ExecStatus → Option ℤ → Execution → Execution
  unfolding event_ts
  finished final duration e = record e {
    status = final;
    agent_ts_end = some event_ts;
    duration_ms = duration;
    exit_code = ev.exit_code;
    host = elim ev.host [ none ↦ e.host | some h ↦ some h ];
    sequence_max = max e.sequence_max ev.sequence;
  }

  unfoldable pub may_finish : ExecStatus → Execution → Bool
  may_finish final e = is_run_of exec_id ev.org_id e && leb (rank e.status) (rank final)

  -- UPDATE executions of a known execution.
  unfoldable pub update_finish : ExecStatus → Option ℕ → Db → Db
  unfolding measured finished may_finish
  update_finish final begin db = record db {
    executions = update_where (may_finish final) (finished final (measured begin)) db.executions;
  }

  -- The start of an execution that was never announced.
  unfoldable pub single_start : ℕ
  unfolding event_ts
  single_start = elim ev.duration_ms [ none ↦ event_ts | some d ↦ millis_before d event_ts ]

  unfoldable pub single_row : ExecStatus → Execution
  unfolding single_start skew event_ts
  single_row final = record {
    id = exec_id;
    org_id = ev.org_id;
    job_id = ev.job_id;
    agent_id = ev.agent_id;
    status = final;
    scheduled_ts = single_start;
    agent_ts_start = some single_start;
    agent_ts_end = some event_ts;
    server_received_ts = server_ts;
    skew_ms = skew;
    duration_ms = ev.duration_ms;
    exit_code = ev.exit_code;
    host = ev.host;
    sequence_max = ev.sequence;
    expected_run_id = none;
    failure_reason = none;
  }

  -- INSERT ... ON CONFLICT DO NOTHING
  unfoldable pub insert_single : ExecStatus → Db → Db
  unfolding single_row single_start
  insert_single final db =
      let new = db.executions ++ (single_row final ∷ []) in
      record db {
        executions =
            if any_of (same_execution exec_id single_start) db.executions
            then db.executions
            else new;
      }

-- The last `n` characters, as the slice `[-n:]` takes them: with n = 0 it is the whole text.
unfoldable pub last_chars : ℕ → List ℕ → List ℕ
last_chars n text = if truthy n then drop (length text - n) text else text

abbrev pub same_log : ExecId → Stream → LogRow → Bool
same_log exec_id s r = eq_exec r.execution_id exec_id && eq_stream r.stream s

-- One round of the loop over the two streams: an empty or absent tail is skipped.
unfoldable pub store_tail : Env → Uuid → ExecId → Stream → Option (List ℕ) → Db → Db
unfolding last_chars
store_tail env org exec_id s none db = db
store_tail env org exec_id s (some []) db = db
store_tail env org exec_id s (some (c ∷ cs)) db =
    let row : LogRow = record {
      org_id = org;
      execution_id = exec_id;
      stream = s;
      content = last_chars env.max_log_bytes (env.redact (c ∷ cs));
    } in
    let new = db.logs ++ (row ∷ []) in
    record db { logs = if any_of (same_log exec_id s) db.logs then db.logs else new }

unfoldable pub store_tails : Env → ExecEvent → ExecId → Db → Db
unfolding store_tail
store_tails env ev exec_id db =
    store_tail env ev.org_id exec_id stderr ev.stderr_tail
      (store_tail env ev.org_id exec_id stdout ev.stdout_tail db)
