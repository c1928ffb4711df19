-- ===== src/Fleet.antt =====
-- Agents that enroll, cronsentinel/routers/agents.py: tokens, keys and their rotation, and who an agent's request speaks
-- for. New keys and identifiers are arguments, as are Crypto and the two kinds of Redis keys.
pub mod Handlers
pub mod Once
pub mod Revoked
pub mod Stale
pub mod Metrics
use jobwatch.Prelude.{
  ℕ, ◌+◌, ◌*◌, Bool, true, false, ◌&&◌, ◌||◌, not, Option, none, some, List, [], ◌∷◌, ◌++◌, ◌==◌,
  ltb, leb, if◌then◌else◌, is_some, coalesce, any_of, find_first, update_where,
}
use jobwatch.Prelude.Int.{ℤ, pos, millis_between}
use jobwatch.Db.{Uuid}
use jobwatch.Http.{Reply, ok, raised, ◌>>=◌, raise_if, found_or}
use jobwatch.Ratelimit.{check}
use jobwatch.Redis.{Redis}
use jobwatch.Access.{
  Principal, devops, needs, Text, Crypto, Hashed, hash_secret, verify_secret, needs_rehash,
  AuditRow, by_agent, bootstrap_token, agent_rotate, agent_revoke, agent_enroll, audit, or_else,
}

pub data AgentKind : Type 0 where
  linux k8s ci other_kind : AgentKind

pub data AgentStatus : Type 0 where
  pending active revoked : AgentStatus

-- A row of agents.
pub record AgentRow : Type 0 where
  pub id : Uuid
  pub org_id : Uuid
  pub kind : AgentKind
  pub host_id : ℕ
  pub name : ℕ
  pub version : ℕ
  pub key_hash : Hashed
  pub status : AgentStatus
  pub last_seen_at : Option ℕ
  pub skew_ms : ℤ
  pub revoked_at : Option ℕ
  pub heartbeat_interval_s : ℕ

-- A row of servers, unique on the organisation and the host's name.
pub record ServerRow : Type 0 where
  pub id : Uuid
  pub org_id : Uuid
  pub agent_id : Option Uuid
  pub hostname : ℕ

-- bootstrap:<token>, and agentkey:<agent>
pub record Invite : Type 0 where
  pub org_id : Uuid
  pub name : Option ℕ

abbrev pub Cached : Type 0
Cached = Hashed × Uuid

pub record EnrollIn : Type 0 where
  pub bootstrap_token : ℕ
  pub name : ℕ
  pub host_id : ℕ
  pub kind : AgentKind
  pub version : ℕ

-- agents.heartbeat_interval_s of a row that does not say.
abbrev pub default_interval : ℕ
default_interval = 60

abbrev pub ttl_in_range : ℕ → Bool
ttl_in_range hours = leb 1 hours && leb hours 168

-- CHECK (kind IN ('linux','k8s','ci'))
abbrev pub is_kind : AgentKind → Bool
is_kind other_kind = false
is_kind _ = true

pub record Enrolled : Type 0 where
  pub agent_id : Uuid
  pub agent_key : Text

pub record AgentPrincipal : Type 0 where
  pub agent_id : Uuid
  pub org_id : Uuid

-- agent_id=:id AND revoked_at IS NULL
abbrev pub is_live : Uuid → AgentRow → Bool
is_live id r = r.id == id && not (is_some r.revoked_at)

abbrev pub is_live_in : Uuid → Uuid → AgentRow → Bool
is_live_in org id r = is_live id r && r.org_id == org

abbrev pub set_hash : Hashed → AgentRow → AgentRow
set_hash h r = record r { key_hash = h }

abbrev pub revoke_row : ℕ → AgentRow → AgentRow
revoke_row now r = record r { revoked_at = some now; status = revoked }

-- A live agent of the organisation on this host.
abbrev pub is_host : Uuid → ℕ → AgentRow → Bool
is_host org host r = (r.org_id == org && r.host_id == host) && not (is_some r.revoked_at)

-- The UPDATE of an agent that enrolls again.
abbrev pub renew : ℕ → Hashed → ℕ → ℕ → AgentRow → AgentRow
renew now h name version r = record r {
  key_hash = h;
  name = name;
  version = version;
  status = active;
  last_seen_at = some now;
}

abbrev pub new_agent : ℕ → Uuid → Uuid → EnrollIn → ℕ → Hashed → AgentRow
new_agent now org id body name h = record {
  id = id;
  org_id = org;
  kind = body.kind;
  host_id = body.host_id;
  name = name;
  version = body.version;
  key_hash = h;
  status = active;
  last_seen_at = some now;
  skew_ms = pos 0;
  revoked_at = none;
  heartbeat_interval_s = default_interval;
}

abbrev pub is_server : Uuid → ℕ → ServerRow → Bool
is_server org hostname s = s.org_id == org && s.hostname == hostname

abbrev pub bind_server : Uuid → ServerRow → ServerRow
bind_server agent s = record s { agent_id = some agent }

-- INSERT INTO servers ... ON CONFLICT (org_id, hostname) DO UPDATE
abbrev pub upsert_server : Uuid → Uuid → Uuid → ℕ → List ServerRow → List ServerRow
upsert_server id org agent hostname ss =
    let row : ServerRow = record {
      id = id;
      org_id = org;
      agent_id = some agent;
      hostname = hostname;
    } in
    let more = ss ++ (row ∷ []) in
    if any_of (is_server org hostname) ss
    then update_where (is_server org hostname) (bind_server agent) ss
    else more

module _ (c : Crypto) (B : Redis Invite) (K : Redis Cached) where
  -- The tables, the two kinds of Redis keys, and the sliding windows of enrollments and agents.
  pub record Fleet : Type 0 where
    pub agents : List AgentRow
    pub servers : List ServerRow
    pub audit_logs : List AuditRow
    pub invites : B.State
    pub cached : K.State
    pub enroll_hits : ℕ → List ℕ
    pub agent_hits : Uuid → List ℕ
