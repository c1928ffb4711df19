-- ===== src/Fleet/Handlers.antt =====
-- The handlers of cronsentinel/routers/agents.py that keep agents and their keys. An instant is in microseconds; the key
-- prefix, which is only shown, is left out.
use jobwatch.Prelude.{
  ℕ, ◌*◌, ◌/◌, Bool, ◌&&◌, not, Option, none, some, List, [], ◌∷◌, ◌++◌, ◌==◌, leb, if◌then◌else◌,
  coalesce, any_of, find_first, update_where,
}
use jobwatch.Prelude.Int.{pos, millis_between}
use jobwatch.Db.{Uuid}
use jobwatch.Http.{Reply, ok, raised, ◌>>=◌, raise_if, found_or, unless}
use jobwatch.Ratelimit.{check}
use jobwatch.Redis.{Redis}
use jobwatch.Access.{
  Principal, devops, needs, Text, Crypto, hash_secret, verify_secret, needs_rehash, AuditRow,
  by_agent, bootstrap_token, agent_rotate, agent_revoke, agent_enroll, audit,
}
use jobwatch.Fleet.{
  AgentRow, active, Invite, Cached, EnrollIn, ttl_in_range, is_kind, Enrolled, AgentPrincipal,
  is_live, is_live_in, set_hash, revoke_row, is_host, renew, new_agent, upsert_server, Fleet,
}

abbrev pub to_ms : ℕ → ℕ
to_ms now = now / 1000

abbrev pub to_s : ℕ → ℕ
to_s now = now / 1000000

abbrev pub put_hits : ℕ → List ℕ → (ℕ → List ℕ) → ℕ → List ℕ
put_hits key hits all k = if k == key then hits else all k

-- The audit of `enroll`.
abbrev pub enroll_audit : Uuid → Uuid → AuditRow
enroll_audit org agent = record {
  org_id = org;
  actor_id = none;
  actor_type = by_agent;
  action = agent_enroll;
  target_id = agent;
}

module _ (c : Crypto) (B : Redis Invite) (K : Redis Cached) where
  -- `bootstrap_token`, for a name and a lifetime in hours (422 where pydantic refuses it).
  unfoldable pub create_bootstrap :
      ℕ → Principal → Option ℕ → ℕ → ℕ → Fleet c B K → Reply (ℕ × Fleet c B K)
  unfolding needs
  create_bootstrap now p name ttl_hours token f = needs devops p >>= λ _.
      raise_if (not (ttl_in_range ttl_hours)) 422 >>= λ _. ok (
        token,
        record f {
          invites =
              B.setex (to_s now) token (ttl_hours * 3600)
                (record { org_id = p.org_id; name = name }) f.invites;
          audit_logs = f.audit_logs ++ (audit p bootstrap_token token ∷ []);
        },
      )

  abbrev pub rotated_fleet : Principal → Uuid → Text → Fleet c B K → Fleet c B K
  rotated_fleet p id raw f = record f {
    agents = update_where (is_live_in p.org_id id) (set_hash (hash_secret c raw)) f.agents;
    audit_logs = f.audit_logs ++ (audit p agent_rotate id ∷ []);
    cached = K.delete id f.cached;
  }

  -- The session's organisation and the guard of the statement; the cached key is deleted behind the commit.
  unfoldable pub rotate : Principal → Uuid → Text → Fleet c B K → Reply (Fleet c B K)
  unfolding needs hash_secret
  rotate p id raw f = needs devops p >>= λ _.
      raise_if (not (any_of (is_live_in p.org_id id) f.agents)) 404 >>= λ _.
      ok (rotated_fleet p id raw f)

  abbrev pub is_own : Principal → Uuid → AgentRow → Bool
  is_own p id r = r.id == id && r.org_id == p.org_id

  abbrev pub revoked_fleet : ℕ → Principal → Uuid → Fleet c B K → Fleet c B K
  revoked_fleet now p id f = record f {
    agents = update_where (is_own p id) (revoke_row now) f.agents;
    audit_logs = f.audit_logs ++ (audit p agent_revoke id ∷ []);
    cached = K.delete id f.cached;
  }

  unfoldable pub revoke : ℕ → Principal → Uuid → Fleet c B K → Reply (Fleet c B K)
  unfolding needs
  revoke now p id f = needs devops p >>= λ _.
      raise_if (not (any_of (is_own p id) f.agents)) 404 >>= λ _. ok (revoked_fleet now p id f)

  -- The session of `enroll`: the agent that has this host, with a new key, or a new agent and its server.
  abbrev pub store_agent :
      ℕ
      → Uuid
      → ℕ
      → EnrollIn
      → Text
      → Uuid
      → Uuid
      → Option AgentRow
      → Fleet c B K
      → Reply (Uuid × Fleet c B K)
  store_agent now org name body key new_id server_id (some old) f = ok (
    old.id,
    record f {
      agents =
          update_where (λ r. r.id == old.id) (renew now (hash_secret c key) name body.version)
            f.agents;
      audit_logs = f.audit_logs ++ (enroll_audit org old.id ∷ []);
    },
  )
  store_agent now org name body key new_id server_id none f =
      raise_if (not (is_kind body.kind)) 500 >>= λ _. ok (
        new_id,
        record f {
          agents = f.agents ++ (new_agent now org new_id body name (hash_secret c key) ∷ []);
          servers = upsert_server server_id org new_id body.name f.servers;
          audit_logs = f.audit_logs ++ (enroll_audit org new_id ∷ []);
        },
      )

  abbrev pub redeem :
      ℕ → EnrollIn → Text → Uuid → Uuid → Fleet c B K → Reply (Enrolled × Fleet c B K)
  redeem now body key new_id server_id f =
      found_or 401 (B.get (to_s now) body.bootstrap_token f.invites) >>= λ (i : Invite).
      store_agent now i.org_id (coalesce i.name body.name) body key new_id server_id
        (find_first (is_host i.org_id body.host_id) f.agents) f
      >>= λ (stored : Uuid × Fleet c B K). ok (
        record { agent_id = stored.0; agent_key = key },
        record stored.1 { invites = B.delete body.bootstrap_token stored.1.invites },
      )

  -- A handler behind a rate limit: the set of hits is kept, whatever it answers.
  abbrev pub behind_limit :
      {A : Type 0} → Option ℕ → Fleet c B K → Reply (A × Fleet c B K) → Reply A × Fleet c B K
  behind_limit none f (ok (a, after)) = (ok a, after)
  behind_limit none f (raised code) = (raised code, f)
  behind_limit (some code) f answer = (raised code, f)

  unfoldable pub enroll :
      ℕ → ℕ → EnrollIn → Text → Uuid → Uuid → Fleet c B K → Reply Enrolled × Fleet c B K
  unfolding check hash_secret
  enroll now client body key new_id server_id f =
      let r = check (to_ms now) 10 (f.enroll_hits client) in
      let hit = record f { enroll_hits = put_hits client r.hits f.enroll_hits } in
      behind_limit r.raised hit (redeem now body key new_id server_id hit)

  -- The key hash that `agent_principal` reads, from the cache or else from the table; then it is cached.
  unfoldable pub known_key : ℕ → Uuid → Fleet c B K → Reply (Cached × Fleet c B K)
  known_key now id f = elim (K.get (to_s now) id f.cached) [
    | some entry ↦ ok (entry, f)
    | none ↦ found_or 401 (find_first (is_live id) f.agents) >>= λ (r : AgentRow). ok (
      (r.key_hash, r.org_id),
      record f { cached = K.setex (to_s now) id 300 (r.key_hash, r.org_id) f.cached },
    )
  ]

  -- An old hash is replaced, in the table and in the cache.
  abbrev pub rehash : ℕ → Uuid → Text → Cached → Fleet c B K → Fleet c B K
  rehash now id key (h, org) f =
      if needs_rehash h
      then record f {
        agents = update_where (is_live id) (set_hash (hash_secret c key)) f.agents;
        cached = K.setex (to_s now) id 300 (hash_secret c key, org) f.cached;
      }
      else f

  abbrev pub limit_agent : ℕ → ℕ → Uuid → Uuid → Fleet c B K → Reply AgentPrincipal × Fleet c B K
  limit_agent now rate id org f =
      let r = check (to_ms now) rate (f.agent_hits id) in
      let hit = record f { agent_hits = put_hits id r.hits f.agent_hits } in
      (unless r.raised (record { agent_id = id; org_id = org }), hit)

  abbrev pub verified :
      ℕ
      → ℕ
      → Uuid
      → Text
      → Fleet c B K
      → Reply (Cached × Fleet c B K)
      → Reply AgentPrincipal × Fleet c B K
  verified now rate id key f (raised code) = (raised code, f)
  verified now rate id key f (ok (entry, after)) =
      let done = limit_agent now rate id entry.1 (rehash now id key entry after) in
      if verify_secret c key entry.0 then done else (raised 401, after)

  unfoldable pub agent_principal :
      ℕ → ℕ → Uuid → Text → Fleet c B K → Reply AgentPrincipal × Fleet c B K
  unfolding known_key check verify_secret hash_secret
  agent_principal now rate id key f = verified now rate id key f (known_key now id f)

  -- `agent_heartbeat`: the interval is kept where the report brings none between 10 and 3600 seconds.
  abbrev pub heard : ℕ → Option ℕ → Option ℕ → Option ℕ → AgentRow → AgentRow
  heard now agent_ts version interval r = record r {
    last_seen_at = some now;
    version = coalesce version r.version;
    skew_ms = elim agent_ts [ none ↦ pos 0 | some ts ↦ millis_between now ts ];
    status = active;
    heartbeat_interval_s = elim interval [
      | none ↦ r.heartbeat_interval_s
      | some s ↦ if leb 10 s && leb s 3600 then s else r.heartbeat_interval_s
    ];
  }

  unfoldable pub agent_heartbeat :
      ℕ → AgentPrincipal → Option ℕ → Option ℕ → Option ℕ → Fleet c B K → Fleet c B K
  unfolding millis_between
  agent_heartbeat now a agent_ts version interval f = record f {
    agents = update_where (λ r. r.id == a.agent_id) (heard now agent_ts version interval) f.agents;
  }
