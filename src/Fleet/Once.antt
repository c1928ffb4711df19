-- ===== src/Fleet/Once.antt =====
-- A bootstrap token of routers/agents.py serves once.
use jobwatch.Prelude.{ℕ, ◌≡◌, ◌≢◌, ap, sym, refl, Option, none, some, ==_iff, coalesce, find_first}
use jobwatch.Db.{Uuid}
use jobwatch.Http.{Reply, ok, raised, past-part, ok-injective, past-found}
use jobwatch.Ratelimit.{check}
use jobwatch.Redis.{Redis, IsRedis}
use jobwatch.Access.{Text, Crypto}
use jobwatch.Fleet.{Invite, Cached, EnrollIn, Enrolled, Fleet, is_host}
use jobwatch.Fleet.Handlers.{to_s, to_ms, put_hits, store_agent, redeem, behind_limit, enroll}

module _ (c : Crypto) (B : Redis Invite) (K : Redis Cached) where
  redeem-deletes :
      (now : ℕ) (body : EnrollIn) (key : Text) (new_id server_id : Uuid) (f : Fleet c B K)
      (e : Enrolled) (after : Fleet c B K)
      → redeem c B K now body key new_id server_id f ≡ ok (e, after)
      → (s : B.State) × (after.invites ≡ B.delete body.bootstrap_token s)
  redeem-deletes now body key new_id server_id f e after h =
      let (i, found, rest) = past-found 401 (B.get (to_s now) body.bootstrap_token f.invites) _ h in
      let (stored, put, end) =
        past-part
          (store_agent c B K now i.org_id (coalesce i.name body.name) body key new_id server_id
            (find_first (is_host i.org_id body.host_id) f.agents) f)
          _ rest in
      (stored.1.invites, sym (ap (λ (x : Enrolled × Fleet c B K). x.1.invites) (ok-injective end)))

  limit-deletes :
      (token : ℕ) (limit : Option ℕ) (hit : Fleet c B K) (answer : Reply (Enrolled × Fleet c B K))
      (e : Enrolled)
      → ((x : Enrolled) (after : Fleet c B K)
          → answer ≡ ok (x, after)
          → (s : B.State) × (after.invites ≡ B.delete token s))
      → (behind_limit c B K limit hit answer).0 ≡ ok e
      → (s : B.State) × ((behind_limit c B K limit hit answer).1.invites ≡ B.delete token s)
  limit-deletes token none hit (ok (x, after)) e h done = h x after refl
  limit-deletes token none hit (raised code) e h done = cc
  limit-deletes token (some code) hit answer e h done = cc

  enroll-deletes :
      (now client : ℕ) (body : EnrollIn) (key : Text) (new_id server_id : Uuid) (f : Fleet c B K)
      (e : Enrolled)
      → (enroll c B K now client body key new_id server_id f).0 ≡ ok e
      → (s : B.State) × ((enroll c B K now client body key new_id server_id f).1.invites
          ≡ B.delete body.bootstrap_token s)
  unfolding enroll
  enroll-deletes now client body key new_id server_id f e h =
      let r = check (to_ms now) 10 (f.enroll_hits client) in
      let hit = record f { enroll_hits = put_hits client r.hits f.enroll_hits } in
      limit-deletes body.bootstrap_token r.raised hit
        (redeem c B K now body key new_id server_id hit) e
        (redeem-deletes now body key new_id server_id hit) h

  limit-refuses :
      (limit : Option ℕ) (hit : Fleet c B K) (answer : Reply (Enrolled × Fleet c B K))
      (e : Enrolled)
      → answer ≡ raised 401
      → (behind_limit c B K limit hit answer).0 ≢ ok e
  limit-refuses none hit (ok x) e h done = cc
  limit-refuses none hit (raised code) e h done = cc
  limit-refuses (some code) hit answer e h done = cc

  -- After an enrollment with a bootstrap token, no later one with that token succeeds, from whatever client and
  -- host.
  pub enroll_once :
      (now later client other : ℕ) (body again : EnrollIn) (key key' : Text)
      (new_id server_id new_id' server_id' : Uuid) (f : Fleet c B K) (e e' : Enrolled)
      → IsRedis B
      → again.bootstrap_token ≡ body.bootstrap_token
      → (enroll c B K now client body key new_id server_id f).0 ≡ ok e
      → (enroll c B K later other again key' new_id' server_id'
          (enroll c B K now client body key new_id server_id f).1).0
        ≢ ok e'
  unfolding enroll
  enroll_once now later client other body again key key' new_id server_id new_id' server_id' f e e'
        redis same done =
      let after = (enroll c B K now client body key new_id server_id f).1 in
      let (s, deleted) = enroll-deletes now client body key new_id server_id f e done in
      let r = check (to_ms later) 10 (after.enroll_hits other) in
      let hit = record after { enroll_hits = put_hits other r.hits after.enroll_hits } in
      let gone : B.get (to_s later) again.bootstrap_token after.invites ≡ none =
        rw
          (
            deleted,
            redis.get-delete (to_s later) body.bootstrap_token again.bootstrap_token s,
            (==_iff again.bootstrap_token body.bootstrap_token).1 same,
          )
          refl in
      limit-refuses r.raised hit (redeem c B K later again key' new_id' server_id' hit) e'
        (rw gone refl)
