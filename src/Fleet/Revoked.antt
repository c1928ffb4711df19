-- ===== src/Fleet/Revoked.antt =====
-- What a rotation and a revocation of routers/agents.py change for the agent's next request.
use jobwatch.Prelude.{
  ℕ, ◌≤◌, subst, arith, [], ◌∷◌, ◌≡◌, ◌∙◌, ap, sym, refl, true, false, not, inl, inr, none, List,
  All, All-Mem, ◌==◌, ==_iff, any_of, any_of-Mem, find_first, find_first-holds, find_first-none,
  Option-cases, Bool-cases, update_where, update_if, Mem-update_where, update_where-Mem, and-true,
  not-false, is_some,
}
use jobwatch.Db.{Uuid}
use jobwatch.Http.{Reply, past-found, ok, raised, ok-injective, past-guard, unless}
use jobwatch.Ratelimit.{check}
use jobwatch.Redis.{Redis, IsRedis}
use jobwatch.Access.{
  Principal, devops, at_least, Text, Crypto, Hashed, needs_rehash, verify_secret, hash_secret,
}
use jobwatch.Fleet.{AgentRow, Invite, Cached, Fleet, is_live, is_live_in, set_hash, revoke_row}
use jobwatch.Fleet.Handlers.{
  to_s, to_ms, is_own, rotate, rotated_fleet, revoke, revoked_fleet, known_key, verified, rehash,
  agent_principal,
}

-- An agent's identifier is that of one organisation.
abbrev pub IsOwned : Uuid → Uuid → List AgentRow → Type 0
IsOwned org id = All (λ r. r.id ≡ id → r.org_id ≡ org)

pair-eq {ℓ κ} :
    {A : Type ℓ} {B : Type κ} {a b : A} {x y : B} → a ≡ b → x ≡ y → ◌≡◌ {A = A × B} (a, x) (b, y)
pair-eq p q = λ i. (p i, q i)

-- A request of an agent, at an instant in microseconds.
pub record Asked : Type 0 where
  pub now : ℕ
  pub id : Uuid
  pub key : Text

-- No clock goes back, from the first instant to the last.
abbrev pub IsInOrder : ℕ → List Asked → ℕ → Type 0
IsInOrder start [] end = start ≤ end
IsInOrder start (q ∷ qs) end = (start ≤ q.now) × IsInOrder q.now qs end

module _ (c : Crypto) (B : Redis Invite) (K : Redis Cached) where
  -- A row that is live after the UPDATE of `revoke` is not the agent's.
  live_revoked :
      (now : ℕ) (p : Principal) (id : Uuid) (b : AgentRow)
      → (b.id ≡ id → b.org_id ≡ p.org_id)
      → is_live id (update_if (is_own c B K p id) (revoke_row now) b) ≡ false
  live_revoked now p id b owned = elim (Bool-cases (is_own c B K p id b)) [
    | inl t ↦ rw t (elim (Bool-cases (b.id == id)) [ inl u ↦ rw u refl | inr n ↦ rw n refl ])
    | inr n ↦ rw n (elim (Bool-cases (b.id == id)) [
      | inl u ↦
          let mine = (==_iff b.org_id p.org_id).1 (owned ((==_iff b.id id).0 u)) in
          cc (rw (u, mine) at n)
      | inr v ↦ rw v refl
    ])
  ]

  -- From a second on nothing is cached of the agent, and none of its rows is live.
  record IsGone (start : ℕ) (id : Uuid) (f : Fleet c B K) : Type 0 where
    uncached : (s : ℕ) → start ≤ s → K.get s id f.cached ≡ none
    dead : All (λ (r : AgentRow). is_live id r ≡ false) f.agents

  revoked-dead :
      (now : ℕ) (p : Principal) (id : Uuid) (rs : List AgentRow)
      → IsOwned p.org_id id rs
      → All
          (λ (r : AgentRow). is_live id r ≡ false)
          (update_where (is_own c B K p id) (revoke_row now) rs)
  revoked-dead now p id [] owned = tt
  revoked-dead now p id (r ∷ rs) owned =
      (live_revoked now p id r owned.0, revoked-dead now p id rs owned.1)

  revoked-IsGone :
      (now start : ℕ) (p : Principal) (id : Uuid) (f : Fleet c B K)
      → IsRedis K
      → IsOwned p.org_id id f.agents
      → IsGone start id (revoked_fleet c B K now p id f)
  revoked-IsGone now start p id f redis owned = record {
    uncached = λ s le. rw (redis.get-delete s id id f.cached, (==_iff id id).1 refl) refl;
    dead = revoked-dead now p id f.agents owned;
  }

  gone-unknown :
      (now : ℕ) (id : Uuid) (f : Fleet c B K)
      → IsGone (to_s now) id f
      → known_key c B K now id f ≡ raised 401
  unfolding known_key
  gone-unknown now id f g =
      rw (g.uncached (to_s now) (omega arith), known_key)
        (elim (Option-cases (find_first (is_live id) f.agents)) [
          | inl missing ↦ rw missing refl
          | inr (r, found) ↦
              let (live, mem) = find_first-holds (is_live id) f.agents found in
              let off = All-Mem (λ (x : AgentRow). is_live id x ≡ false) g.dead mem in cc
        ])

  -- What is cached of another agent.
  setex-uncached :
      (now k id : ℕ) (v : Cached) (s0 : K.State)
      → IsRedis K
      → (id == k) ≡ false
      → ((s : ℕ) → to_s now ≤ s → K.get s id s0 ≡ none)
      → (s : ℕ) → to_s now ≤ s
      → K.get s id (K.setex (to_s now) k 300 v s0) ≡ none
  setex-uncached now k id v s0 redis other none_there s le =
      rw (redis.get-setex (to_s now) s k id 300 v s0 le, other) (none_there s le)

  rehashed-dead :
      (id k : Uuid) (h : Hashed) (rs : List AgentRow)
      → All (λ (r : AgentRow). is_live id r ≡ false) rs
      → All (λ (r : AgentRow). is_live id r ≡ false) (update_where (is_live k) (set_hash h) rs)
  rehashed-dead id k h [] d = tt
  rehashed-dead id k h (r ∷ rs) d = elim (Bool-cases (is_live k r)) [
    | inl t ↦ rw t (d.0, rehashed-dead id k h rs d.1)
    | inr n ↦ rw n (d.0, rehashed-dead id k h rs d.1)
  ]

  known_key-IsGone :
      (now k id : ℕ) (f : Fleet c B K) (found : Cached × Fleet c B K)
      → IsRedis K
      → (id == k) ≡ false
      → known_key c B K now k f ≡ ok found
      → IsGone (to_s now) id f
      → IsGone (to_s now) id found.1
  unfolding known_key
  known_key-IsGone now k id f found redis other h g =
      elim (Option-cases (K.get (to_s now) k f.cached)) [
        | inr (entry, there) ↦
            subst (λ (x : Cached × Fleet c B K). IsGone (to_s now) id x.1)
              (ok-injective (rw (there, known_key) at h)) g
        | inl missing ↦
            let (r, row, end) =
              past-found 401 (find_first (is_live k) f.agents) _ (rw (missing, known_key) at h) in
            subst (λ (x : Cached × Fleet c B K). IsGone (to_s now) id x.1) (ok-injective end)
              (record {
                uncached =
                    setex-uncached now k id (r.key_hash, r.org_id) f.cached redis other g.uncached;
                dead = g.dead;
              })
      ]

  rehash-IsGone :
      (now k id : ℕ) (key : Text) (entry : Cached) (f : Fleet c B K)
      → IsRedis K
      → (id == k) ≡ false
      → IsGone (to_s now) id f
      → IsGone (to_s now) id (rehash c B K now k key entry f)
  rehash-IsGone now k id key (h, org) f redis other g = elim (Bool-cases (needs_rehash h)) [
    | inl t ↦ rw t (record {
      uncached = setex-uncached now k id (hash_secret c key, org) f.cached redis other g.uncached;
      dead = rehashed-dead id k (hash_secret c key) f.agents g.dead;
    })
    | inr n ↦ rw n g
  ]

  -- A request keeps it, of whichever agent and with whatever key.
  request-IsGone :
      (now rate k id : ℕ) (key : Text) (f : Fleet c B K)
      → IsRedis K
      → IsGone (to_s now) id f
      → IsGone (to_s now) id (agent_principal c B K now rate k key f).1
  unfolding agent_principal
  request-IsGone now rate k id key f redis g = elim (Bool-cases (id == k)) [
    | inl same ↦
        let e : id ≡ k = (==_iff id k).0 same in
        let unknown : known_key c B K now k f ≡ raised 401 =
          subst (λ n. known_key c B K now n f ≡ raised 401) e (gone-unknown now id f g) in
        subst (IsGone (to_s now) id)
          (ap (λ answer. (verified c B K now rate k key f answer).1) (sym unknown)) g
    | inr other ↦ of_answer other (known_key c B K now k f) refl
  ]
    where
      of_answer :
          (id == k) ≡ false
          → (answer : Reply (Cached × Fleet c B K)) → known_key c B K now k f ≡ answer
          → IsGone (to_s now) id (verified c B K now rate k key f answer).1
      of_answer other (raised code) q = g
      of_answer other (ok (entry, after)) q =
          let kept = known_key-IsGone now k id f (entry, after) redis other q g in
          elim (Bool-cases (verify_secret c key entry.0)) [
            | inl t ↦
                let done = rehash-IsGone now k id key entry after redis other kept in
                rw t (record { uncached = done.uncached; dead = done.dead })
            | inr n ↦ rw n kept
          ]

  abbrev pub requests : ℕ → List Asked → Fleet c B K → Fleet c B K
  requests rate [] f = f
  requests rate (q ∷ qs) f = requests rate qs (agent_principal c B K q.now rate q.id q.key f).1

  later-IsGone :
      (now later : ℕ) (id : Uuid) (f : Fleet c B K)
      → now ≤ later
      → IsGone (to_s now) id f
      → IsGone (to_s later) id f
  later-IsGone now later id f le g = record {
    uncached = λ s le'. g.uncached s (omega (arith, le, le'));
    dead = g.dead;
  }

  requests-IsGone :
      (now later rate : ℕ) (id : Uuid) (qs : List Asked) (f : Fleet c B K)
      → IsRedis K
      → IsInOrder now qs later
      → IsGone (to_s now) id f
      → IsGone (to_s later) id (requests rate qs f)
  requests-IsGone now later rate id [] f redis order g = later-IsGone now later id f order g
  requests-IsGone now later rate id (q ∷ qs) f redis order g =
      requests-IsGone q.now later rate id qs (agent_principal c B K q.now rate q.id q.key f).1 redis
        order.1
        (request-IsGone q.now rate q.id id q.key f redis (later-IsGone now q.now id f order.0 g))

  -- After an agent is revoked, no request with its identifier is accepted, whatever key it brings, whatever was cached and
  -- whatever requests of agents come in between, its own included, if no clock goes back and no other organisation has
  -- an agent with its identifier.
  pub revoke_refuses :
      (now later rate : ℕ) (p : Principal) (id : Uuid) (key : Text) (f after : Fleet c B K)
      (between : List Asked)
      → IsRedis K
      → IsOwned p.org_id id f.agents
      → revoke c B K now p id f ≡ ok after
      → IsInOrder now between later
      → (agent_principal c B K later rate id key (requests rate between after)).0 ≡ raised 401
  unfolding revoke agent_principal
  revoke_refuses now later rate p id key f after between redis owned h order =
      let (may, rest) = past-guard (not (at_least p devops)) 403 _ h in
      let (there, end) = past-guard (not (any_of (is_own c B K p id) f.agents)) 404 _ rest in
      let start : IsGone (to_s now) id after =
        subst (IsGone (to_s now) id) (ok-injective end)
          (revoked-IsGone now (to_s now) p id f redis owned) in
      let now_gone = requests-IsGone now later rate id between after redis order start in
      ap (λ answer. (verified c B K later rate id key (requests rate between after) answer).0)
        (gone-unknown later id (requests rate between after) now_gone)

  -- The row that a rotation leaves live has the new key.
  live_rotated :
      (p : Principal) (id : Uuid) (raw : Text) (b : AgentRow)
      → (b.id ≡ id → b.org_id ≡ p.org_id)
      → is_live id (update_if (is_live_in p.org_id id) (set_hash (hash_secret c raw)) b) ≡ true
      → ((update_if (is_live_in p.org_id id) (set_hash (hash_secret c raw)) b).key_hash
          ≡ hash_secret c raw)
        × ((update_if (is_live_in p.org_id id) (set_hash (hash_secret c raw)) b).org_id ≡ p.org_id)
  live_rotated p id raw b owned live = elim (Bool-cases (is_live_in p.org_id id b)) [
    | inl t ↦ rw t (refl, (==_iff b.org_id p.org_id).0 (and-true _ _ t).1)
    | inr n ↦
        let alive : is_live id b ≡ true = rw n at live in
        let its = (==_iff b.id id).0 (and-true (b.id == id) (not (is_some b.revoked_at)) alive).0 in
        cc (rw (alive, (==_iff b.org_id p.org_id).1 (owned its)) at n)
  ]

  rotated-known :
      (later : ℕ) (p : Principal) (id : Uuid) (raw : Text) (f : Fleet c B K)
      → IsRedis K
      → IsOwned p.org_id id f.agents
      → any_of (is_live_in p.org_id id) f.agents ≡ true
      → (found : Fleet c B K) × (known_key c B K later id (rotated_fleet c B K p id raw f)
          ≡ ok ((hash_secret c raw, p.org_id), found))
        × (found.agent_hits ≡ f.agent_hits)
  unfolding known_key
  rotated-known later p id raw f redis owned there =
      let change = set_hash (hash_secret c raw) in
      let rows = update_where (is_live_in p.org_id id) change f.agents in
      let gone : K.get (to_s later) id (K.delete id f.cached) ≡ none =
        rw (redis.get-delete (to_s later) id id f.cached, (==_iff id id).1 refl) refl in
      elim (Option-cases (find_first (is_live id) rows)) [
        | inl missing ↦
            let (b, old, t) = any_of-Mem (is_live_in p.org_id id) f.agents there in
            let dead =
              find_first-none (is_live id) rows missing
                (update_if (is_live_in p.org_id id) change b)
                (update_where-Mem (is_live_in p.org_id id) change old) in
            cc (rw t at dead, (and-true (is_live id b) (b.org_id == p.org_id) t).0)
        | inr (r, found) ↦
            let (live, mem) = find_first-holds (is_live id) rows found in
            let (b, old, e) = Mem-update_where (is_live_in p.org_id id) change f.agents mem in
            let (new_key, its_org) =
              live_rotated p id raw b (All-Mem _ owned old) (ap (is_live id) (sym e) ∙ live) in
            let entry : (r.key_hash, r.org_id) ≡ (hash_secret c raw, p.org_id) =
              pair-eq (ap (λ (x : AgentRow). x.key_hash) e ∙ new_key)
                (ap (λ (x : AgentRow). x.org_id) e ∙ its_org) in
            let after : Fleet c B K = record (rotated_fleet c B K p id raw f) {
              cached = K.setex (to_s later) id 300 (r.key_hash, r.org_id) (K.delete id f.cached);
            } in
            (
              after,
              rw (gone, known_key) (rw found (ap (λ (x : Cached). ok (x, after)) entry)),
              refl,
            )
      ]

  -- Right after a rotation the agent is accepted with its new key, whatever was cached, unless its requests are over their
  -- rate, if no other organisation has an agent with its identifier.
  pub rotate-accepted :
      (later rate : ℕ) (p : Principal) (id : Uuid) (raw : Text) (f after : Fleet c B K)
      → IsRedis K
      → IsOwned p.org_id id f.agents
      → rotate c B K p id raw f ≡ ok after
      → (check (to_ms later) rate (f.agent_hits id)).raised ≡ none
      → (agent_principal c B K later rate id raw after).0
        ≡ ok (record { agent_id = id; org_id = p.org_id })
  unfolding rotate agent_principal
  rotate-accepted later rate p id raw f after redis owned h below =
      let (may, rest) = past-guard (not (at_least p devops)) 403 _ h in
      let (unmet, end) = past-guard (not (any_of (is_live_in p.org_id id) f.agents)) 404 _ rest in
      let (found, known, hits) = rotated-known later p id raw f redis owned (not-false _ unmet) in
      let accepted : (verified c B K later rate id raw after
            (ok ((hash_secret c raw, p.org_id), found))).0
          ≡ ok (record { agent_id = id; org_id = p.org_id }) =
        rw ((==_iff (c.sha256 raw) (c.sha256 raw)).1 refl) (
          ap (λ o. unless o (record { agent_id = id; org_id = p.org_id }))
            (ap (λ (hs : ℕ → List ℕ). (check (to_ms later) rate (hs id)).raised) hits ∙ below)) in
      ap (λ answer. (verified c B K later rate id raw after answer).0)
        (ap (known_key c B K later id) (sym (ok-injective end)) ∙ known)
      ∙ accepted
