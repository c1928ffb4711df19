-- ===== src/Fleet/Stale.antt =====
-- What `enroll` of routers/agents.py leaves cached: a host that enrolls again can be refused with its new key.
use jobwatch.Prelude.{
  ℕ, ◌≡◌, ◌∙◌, ap, sym, refl, false, not, Option, none, some, coalesce, find_first,
}
use jobwatch.Db.{Uuid}
use jobwatch.Http.{Reply, ok, raised, past-part, ok-injective, past-guard, past-found}
use jobwatch.Ratelimit.{check}
use jobwatch.Redis.{Redis}
use jobwatch.Access.{Text, Crypto, verify_secret}
use jobwatch.Fleet.{Invite, Cached, EnrollIn, Enrolled, AgentRow, Fleet, is_host, is_kind}
use jobwatch.Fleet.Handlers.{
  to_s, to_ms, put_hits, store_agent, redeem, behind_limit, enroll, known_key, agent_principal,
}

module _ (c : Crypto) (B : Redis Invite) (K : Redis Cached) where
  store_agent-cached :
      (now : ℕ) (org : Uuid) (name : ℕ) (body : EnrollIn) (key : Text) (new_id server_id : Uuid)
      (old : Option AgentRow) (f : Fleet c B K) (stored : Uuid × Fleet c B K)
      → store_agent c B K now org name body key new_id server_id old f ≡ ok stored
      → stored.1.cached ≡ f.cached
  store_agent-cached now org name body key new_id server_id (some old) f stored h =
      sym (ap (λ (x : Uuid × Fleet c B K). x.1.cached) (ok-injective h))
  store_agent-cached now org name body key new_id server_id none f stored h =
      let (known, end) = past-guard (not (is_kind body.kind)) 500 _ h in
      sym (ap (λ (x : Uuid × Fleet c B K). x.1.cached) (ok-injective end))

  redeem-cached :
      (now : ℕ) (body : EnrollIn) (key : Text) (new_id server_id : Uuid) (f : Fleet c B K)
      (e : Enrolled) (after : Fleet c B K)
      → redeem c B K now body key new_id server_id f ≡ ok (e, after)
      → (after.cached ≡ f.cached) × (e.agent_key ≡ key)
  redeem-cached now body key new_id server_id f e after h =
      let (i, found, rest) = past-found 401 (B.get (to_s now) body.bootstrap_token f.invites) _ h in
      let name = coalesce i.name body.name in
      let old = find_first (is_host i.org_id body.host_id) f.agents in
      let (stored, put, end) =
        past-part (store_agent c B K now i.org_id name body key new_id server_id old f) _ rest in
      (
        sym (ap (λ (x : Enrolled × Fleet c B K). x.1.cached) (ok-injective end))
            ∙ store_agent-cached now i.org_id name body key new_id server_id old f stored put,
        sym (ap (λ (x : Enrolled × Fleet c B K). x.0.agent_key) (ok-injective end)),
      )

  limit-cached :
      (key : Text) (limit : Option ℕ) (f hit : Fleet c B K)
      (answer : Reply (Enrolled × Fleet c B K)) (e : Enrolled)
      → hit.cached ≡ f.cached
      → ((x : Enrolled) (after : Fleet c B K)
          → answer ≡ ok (x, after)
          → (after.cached ≡ hit.cached) × (x.agent_key ≡ key))
      → (behind_limit c B K limit hit answer).0 ≡ ok e
      → ((behind_limit c B K limit hit answer).1.cached ≡ f.cached) × (e.agent_key ≡ key)
  limit-cached key none f hit (ok (x, after)) e same h done =
      let (kept, its) = h x after refl in
      (kept ∙ same, ap (λ (y : Enrolled). y.agent_key) (sym (ok-injective done)) ∙ its)
  limit-cached key none f hit (raised code) e same h done = cc
  limit-cached key (some code) f hit answer e same h done = cc

  -- A host that enrolls again while the hash of its agent's old key is cached is refused with its new key, as long as
  -- the cached hash is read, if the new key does not verify against the old hash.
  pub reenroll-stale :
      (now later client rate : ℕ) (body : EnrollIn) (key : Text) (new_id server_id : Uuid)
      (f : Fleet c B K) (e : Enrolled) (cached : Cached)
      → (enroll c B K now client body key new_id server_id f).0 ≡ ok e
      → K.get (to_s later) e.agent_id f.cached ≡ some cached
      → verify_secret c key cached.0 ≡ false
      → (agent_principal c B K later rate e.agent_id e.agent_key
          (enroll c B K now client body key new_id server_id f).1).0
        ≡ raised 401
  unfolding enroll agent_principal known_key
  reenroll-stale now later client rate body key new_id server_id f e cached done there unverified =
      let r = check (to_ms now) 10 (f.enroll_hits client) in
      let hit = record f { enroll_hits = put_hits client r.hits f.enroll_hits } in
      let after = (enroll c B K now client body key new_id server_id f).1 in
      let (kept, its) =
        limit-cached key r.raised f hit (redeem c B K now body key new_id server_id hit) e refl
          (redeem-cached now body key new_id server_id hit) done in
      let read : K.get (to_s later) e.agent_id after.cached ≡ some cached =
        ap (K.get (to_s later) e.agent_id) kept ∙ there in
      let refused : verify_secret c e.agent_key cached.0 ≡ false =
        ap (λ t. verify_secret c t cached.0) its ∙ unverified in
      rw (read, known_key) (rw refused refl)
