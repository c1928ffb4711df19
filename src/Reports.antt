-- ===== src/Reports.antt =====
-- What runs report to cronsentinel/routers/heartbeat.py (`_resolve`, `_emit`) and to routers/agents.py (`events`): each
-- report becomes an event of exec.*, or is processed at once where there is no broker.
pub mod Events
pub mod Own
pub mod Batch
pub mod Shadow
use jobwatch.Prelude.{
  ℕ, ◌+◌, ◌/◌, Bool, true, false, ◌&&◌, not, Option, none, some, List, [], ◌∷◌, ◌++◌, map, ◌==◌,
  if◌then◌else◌, find_first, keep_if, update_where, take, length,
}
use jobwatch.Prelude.Int.{ℤ}
use jobwatch.Db.{Uuid, ExecId, Agent, EventRow, Db}
use jobwatch.Ingest.{Kind, ExecEvent, Env, seen_event}
use jobwatch.Processor.{process}
use jobwatch.Http.{Reply, ok, raised, ◌>>=◌, found_or, unless}
use jobwatch.Ratelimit.{check}
use jobwatch.Redis.{Redis}
use jobwatch.Access.{or_else}
use jobwatch.Fleet.{AgentPrincipal}

-- The columns of jobs by which a report finds its job.
pub record JobLink : Type 0 where
  pub id : Uuid
  pub org_id : Uuid
  pub heartbeat_token : ℕ
  pub fingerprint : Option ℕ
  pub paused : Bool

-- hb:<token>
abbrev pub Owner : Type 0
Owner = Uuid × Uuid

-- What a heartbeat says.
pub record HeartbeatBody : Type 0 where
  pub status : Kind
  pub execution_id : Option ExecId
  pub sequence : ℕ
  pub agent_ts : Option ℕ
  pub duration_ms : Option ℤ
  pub exit_code : Option ℤ
  pub host : Option ℕ
  pub stdout_tail : Option (List ℕ)
  pub stderr_tail : Option (List ℕ)

-- The event of `_emit`, from a client with this address.
unfoldable pub heartbeat_event : ℕ → ℕ → Owner → HeartbeatBody → ExecEvent
heartbeat_event now client (org, job) b = record {
  org_id = org;
  job_id = job;
  agent_id = none;
  kind = b.status;
  execution_id = b.execution_id;
  sequence = b.sequence;
  agent_ts = b.agent_ts;
  server_ts = some now;
  duration_ms = b.duration_ms;
  exit_code = b.exit_code;
  host = or_else b.host (some client);
  stdout_tail = b.stdout_tail;
  stderr_tail = b.stderr_tail;
}

-- The stream and the tables behind it.
pub record Sink : Type 0 where
  pub connected : Bool
  pub published : List ExecEvent
  pub db : Db

-- `js.publish`, or `process` with the event's own new identifier.
unfoldable pub emit : (ExecEvent → Env) → ExecEvent → Sink → Sink
emit env ev s =
    if s.connected
    then record s { published = s.published ++ (ev ∷ []) }
    else record s { db = (process (env ev) ev s.db).1 }

unfoldable pub emit_all : (ExecEvent → Env) → List ExecEvent → Sink → Sink
unfolding emit
emit_all env [] s = s
emit_all env (ev ∷ evs) s = emit_all env evs (emit env ev s)

module _ (H : Redis Owner) where
  pub record Entry : Type 0 where
    pub links : List JobLink
    pub cached : H.State
    pub hits : ℕ → List ℕ
    pub sink : Sink

  abbrev pub is_live_token : ℕ → JobLink → Bool
  is_live_token token j = j.heartbeat_token == token && not j.paused

  -- `_resolve`: the owner that is cached, or that of the job that is not paused; then it is cached.
  unfoldable pub resolve : ℕ → ℕ → Entry → Reply (Owner × Entry)
  resolve now_s token e = elim (H.get now_s token e.cached) [
    | some owner ↦ ok (owner, e)
    | none ↦ found_or 404 (find_first (is_live_token token) e.links) >>= λ (j : JobLink).
        ok (
          (j.org_id, j.id),
          record e { cached = H.setex now_s token 300 (j.org_id, j.id) e.cached },
        )
  ]

  abbrev pub put_hits : ℕ → List ℕ → (ℕ → List ℕ) → ℕ → List ℕ
  put_hits key hits all k = if k == key then hits else all k

  abbrev pub after_limit : Option ℕ → Entry → Entry → Entry
  after_limit none sent hit = sent
  after_limit (some code) sent hit = hit

  -- Behind the token comes the rate limit, and behind it the event.
  abbrev pub emit_for :
      (ExecEvent → Env)
      → ℕ
      → ℕ
      → ℕ
      → ℕ
      → HeartbeatBody
      → Entry
      → Reply (Owner × Entry)
      → Reply (Unit {0}) × Entry
  emit_for env now client rate token b e (raised code) = (raised code, e)
  emit_for env now client rate token b e (ok (owner, found)) =
      let r = check (now / 1000) rate (found.hits token) in
      let hit = record found { hits = put_hits token r.hits found.hits } in
      let sent = record hit { sink = emit env (heartbeat_event now client owner b) hit.sink } in
      (unless r.raised tt, after_limit r.raised sent hit)

  -- `_emit`, at an instant in microseconds.
  unfoldable pub heartbeat :
      (ExecEvent → Env) → ℕ → ℕ → ℕ → ℕ → HeartbeatBody → Entry → Reply (Unit {0}) × Entry
  unfolding resolve check emit heartbeat_event
  heartbeat env now client rate token b e =
      emit_for env now client rate token b e (resolve (now / 1000000) token e)

  -- The body of the routes that bring a status alone.
  abbrev pub status_only : Kind → HeartbeatBody
  status_only status = record {
    status = status;
    execution_id = none;
    sequence = 0;
    agent_ts = none;
    duration_ms = none;
    exit_code = none;
    host = none;
    stdout_tail = none;
    stderr_tail = none;
  }

  -- `heartbeat_path`, with a status that is one of the three or none of them; `ping` reports a success.
  unfoldable pub heartbeat_path :
      (ExecEvent → Env) → ℕ → ℕ → ℕ → ℕ → Option Kind → Entry → Reply (Unit {0}) × Entry
  unfolding heartbeat
  heartbeat_path env now client rate token none e = (raised 400, e)
  heartbeat_path env now client rate token (some status) e =
      heartbeat env now client rate token (status_only status) e

-- A report of an agent's batch; `progress` has no Kind, since it is not published.
pub data Reported : Type 0 where
  progress : Reported
  of_run : Kind → Reported

pub record AgentEvent : Type 0 where
  pub job_token : Option ℕ
  pub fingerprint : Option ℕ
  pub kind : Reported
  pub body : HeartbeatBody

abbrev pub batch_limit : ℕ
batch_limit = 500

abbrev pub has_token : Uuid → Option ℕ → JobLink → Bool
has_token org none j = false
has_token org (some t) j = j.org_id == org && j.heartbeat_token == t

abbrev pub eq_option : Option ℕ → ℕ → Bool
eq_option none x = false
eq_option (some y) x = y == x

abbrev pub has_fingerprint : Uuid → Option ℕ → JobLink → Bool
has_fingerprint org none j = false
has_fingerprint org (some f) j = j.org_id == org && eq_option j.fingerprint f

-- by_tok.get(...) or by_fp.get(...)
unfoldable pub find_link : Uuid → AgentEvent → List JobLink → Option JobLink
find_link org e links =
    or_else (find_first (has_token org e.job_token) links)
      (find_first (has_fingerprint org e.fingerprint) links)
