-- ===== src/Reports/Own.antt =====
-- Whose runs a heartbeat of routers/heartbeat.py reports: what is cached of owners agrees with the jobs.
use jobwatch.Prelude.{
  ℕ, ◌+◌, ◌/◌, ◌≤◌, ◌≡◌, ◌∙◌, ap, sym, refl, subst, true, not, inl, inr, Option, none, some,
  some-injective, List, [], ◌∷◌, ◌++◌, Mem, ◌==◌, ==_iff, ltb, Option-cases, Bool-cases, and-true,
  arith,
}
use jobwatch.Ingest.{ExecEvent, Env}
use jobwatch.Http.{Reply, ok, raised, unless, past-first, ok-injective}
use jobwatch.Ratelimit.{check}
use jobwatch.Access.{or_else}
use jobwatch.Redis.{Redis, IsRedis}
use jobwatch.Reports.{
  JobLink, Owner, HeartbeatBody, heartbeat_event, Sink, emit, Entry, is_live_token, resolve,
  put_hits, after_limit, emit_for, heartbeat,
}
use jobwatch.Reports.Batch.{emit-connected}

-- The owner of a token: the organisation and identifier of a job that has it.
abbrev pub Owns : List JobLink → ℕ → Owner → Type 0
Owns links token owner =
    (j : JobLink) × Mem j links × (j.heartbeat_token ≡ token) × ((j.org_id, j.id) ≡ owner)

-- The event says what the heartbeat of a client does, of the job and its organisation.
pub record Says (now client : ℕ) (j : JobLink) (b : HeartbeatBody) (ev : ExecEvent) : Type 0 where
  pub org_id : ev.org_id ≡ j.org_id
  pub job_id : ev.job_id ≡ j.id
  pub agent_id : ev.agent_id ≡ none
  pub kind : ev.kind ≡ b.status
  pub run : (ev.execution_id ≡ b.execution_id) × (ev.sequence ≡ b.sequence)
  pub times : (ev.agent_ts ≡ b.agent_ts) × (ev.server_ts ≡ some now)
  pub outcome : (ev.duration_ms ≡ b.duration_ms) × (ev.exit_code ≡ b.exit_code)
  pub host : ev.host ≡ or_else b.host (some client)
  pub tails : (ev.stdout_tail ≡ b.stdout_tail) × (ev.stderr_tail ≡ b.stderr_tail)

-- A heartbeat, at an instant in microseconds.
pub record Post : Type 0 where
  pub now : ℕ
  pub client : ℕ
  pub token : ℕ
  pub body : HeartbeatBody

-- No clock goes back, from the first instant to the last.
abbrev pub IsInOrder : ℕ → List Post → ℕ → Type 0
IsInOrder start [] end = start ≤ end
IsInOrder start (p ∷ ps) end = (start ≤ p.now) × IsInOrder p.now ps end

module _ (H : Redis Owner) where
  -- What is read from the cache, now or later, is the owner of its token.
  abbrev pub IsCoherent : ℕ → Entry H → Type 0
  IsCoherent now_s e =
      (later token : ℕ) (owner : Owner)
      → now_s ≤ later
      → H.get later token e.cached ≡ some owner
      → Owns e.links token owner

  read-Owns :
      (now_s token k later : ℕ) (j : JobLink) (e : Entry H) (owner : Owner)
      → IsRedis H
      → IsCoherent now_s e
      → Mem j e.links
      → j.heartbeat_token ≡ token
      → now_s ≤ later
      → H.get later k (H.setex now_s token 300 (j.org_id, j.id) e.cached) ≡ some owner
      → Owns e.links k owner
  read-Owns now_s token k later j e owner redis coherent mem its le h =
      let read = redis.get-setex now_s later token k 300 (j.org_id, j.id) e.cached le in
      elim (Bool-cases (k == token)) [
        | inr other ↦ coherent later k owner le (sym (rw other at read) ∙ h)
        | inl same ↦ elim (Bool-cases (ltb later (now_s + 300))) [
          | inl alive ↦ (
            j,
            mem,
            its ∙ sym ((==_iff k token).0 same),
            some-injective _ _ (sym (rw (same, alive) at read) ∙ h),
          )
          | inr expired ↦ cc (rw (same, expired) at read)
        ]
      ]

  resolve-Owns :
      (now_s token : ℕ) (e : Entry H) (found : Owner × Entry H)
      → IsRedis H
      → IsCoherent now_s e
      → resolve H now_s token e ≡ ok found
      → Owns e.links token found.0
        × IsCoherent now_s found.1
        × (found.1.links ≡ e.links)
        × (found.1.sink ≡ e.sink)
  unfolding resolve
  resolve-Owns now_s token e found redis coherent h =
      elim (Option-cases (H.get now_s token e.cached)) [
        | inr (owner, there) ↦
            let same : (owner, e) ≡ found = ok-injective (rw (there, resolve) at h) in
            subst
              (λ (x : Owner × Entry H).
                Owns e.links token x.0
                × IsCoherent now_s x.1
                × (x.1.links ≡ e.links)
                × (x.1.sink ≡ e.sink))
              same (coherent now_s token owner (omega arith) there, coherent, refl, refl)
        | inl missing ↦
            let (j, mem, live, end) =
              past-first 404 (is_live_token H token) e.links _ (rw (missing, resolve) at h) in
            let its =
              (==_iff j.heartbeat_token token).0
                (and-true (j.heartbeat_token == token) (not j.paused) live).0 in
            subst
              (λ (x : Owner × Entry H).
                Owns e.links token x.0
                × IsCoherent now_s x.1
                × (x.1.links ≡ e.links)
                × (x.1.sink ≡ e.sink))
              (ok-injective end)
              (
                (j, mem, its, refl),
                (λ later k owner le r.
                    read-Owns now_s token k later j e owner redis coherent mem its le r),
                refl,
                refl,
              )
      ]

  limit-sent :
      (limit : Option ℕ) (sent hit : Entry H)
      → unless {A = Unit {0}} limit tt ≡ ok tt
      → after_limit H limit sent hit ≡ sent
  limit-sent none sent hit h = refl
  limit-sent (some code) sent hit h = cc

  -- What `emit_for` does behind a token that has an owner.
  emit_for-sent :
      (env : ExecEvent → Env) (now client rate token : ℕ) (b : HeartbeatBody) (e : Entry H)
      (answer : Reply (Owner × Entry H))
      → (emit_for H env now client rate token b e answer).0 ≡ ok tt
      → (found : Owner × Entry H) × (answer ≡ ok found)
        × ((emit_for H env now client rate token b e answer).1.sink
            ≡ emit env (heartbeat_event now client found.0 b) found.1.sink)
  emit_for-sent env now client rate token b e (raised code) h = cc
  emit_for-sent env now client rate token b e (ok (owner, found)) h =
      let r = check (now / 1000) rate (found.hits token) in
      let hit = record found { hits = put_hits H token r.hits found.hits } in
      let sent = record hit { sink = emit env (heartbeat_event now client owner b) hit.sink } in
      ((owner, found), refl, ap (λ (x : Entry H). x.sink) (limit-sent r.raised sent hit h))

  -- Whatever a heartbeat is answered, the jobs stay, and the cache is the one that the token left.
  emit_for-kept :
      (env : ExecEvent → Env) (now client rate token : ℕ) (b : HeartbeatBody) (e found : Entry H)
      (owner : Owner)
      → ((emit_for H env now client rate token b e (ok (owner, found))).1.cached ≡ found.cached)
        × ((emit_for H env now client rate token b e (ok (owner, found))).1.links ≡ found.links)
  emit_for-kept env now client rate token b e found owner =
      elim (Option-cases (check (now / 1000) rate (found.hits token)).raised) [
        | inl n ↦ rw n (refl, refl)
        | inr (code, r) ↦ rw r (refl, refl)
      ]

  IsCoherent-same :
      (now_s : ℕ) (e f : Entry H)
      → f.cached ≡ e.cached
      → f.links ≡ e.links
      → IsCoherent now_s e
      → IsCoherent now_s f
  IsCoherent-same now_s e f cached links coherent later token owner le read =
      subst (λ ls. Owns ls token owner) (sym links)
        (coherent later token owner le (ap (H.get later token) (sym cached) ∙ read))

  heartbeat-IsCoherent :
      (env : ExecEvent → Env) (now client rate token : ℕ) (b : HeartbeatBody) (e : Entry H)
      → IsRedis H
      → IsCoherent (now / 1000000) e
      → IsCoherent (now / 1000000) (heartbeat H env now client rate token b e).1
        × ((heartbeat H env now client rate token b e).1.links ≡ e.links)
  unfolding heartbeat
  heartbeat-IsCoherent env now client rate token b e redis coherent =
      of_answer (resolve H (now / 1000000) token e) refl
    where
      of_answer :
          (answer : Reply (Owner × Entry H))
          → resolve H (now / 1000000) token e ≡ answer
          → IsCoherent (now / 1000000) (emit_for H env now client rate token b e answer).1
            × ((emit_for H env now client rate token b e answer).1.links ≡ e.links)
      of_answer (raised code) q = (coherent, refl)
      of_answer (ok (owner, found)) q =
          let (owns, kept, links, sink) =
            resolve-Owns (now / 1000000) token e (owner, found) redis coherent q in
          let (cached, links') = emit_for-kept env now client rate token b e found owner in
          (
            IsCoherent-same (now / 1000000) found
                (emit_for H env now client rate token b e (ok (owner, found))).1 cached links' kept,
            links' ∙ links,
          )

  -- Heartbeats one after the other.
  abbrev pub heartbeats : (ExecEvent → Env) → ℕ → List Post → Entry H → Entry H
  heartbeats env rate [] e = e
  heartbeats env rate (p ∷ ps) e =
      heartbeats env rate ps (heartbeat H env p.now p.client rate p.token p.body e).1

  heartbeats-IsCoherent :
      (env : ExecEvent → Env) (rate start now : ℕ) (ps : List Post) (e : Entry H)
      → IsRedis H
      → IsInOrder start ps now
      → IsCoherent (start / 1000000) e
      → IsCoherent (now / 1000000) (heartbeats env rate ps e)
        × ((heartbeats env rate ps e).links ≡ e.links)
  heartbeats-IsCoherent env rate start now [] e redis order coherent = (
    λ later token owner le read. coherent later token owner (omega (arith, le, order)) read,
    refl,
  )
  heartbeats-IsCoherent env rate start now (p ∷ ps) e redis order coherent =
      let (kept, links) =
        heartbeat-IsCoherent env p.now p.client rate p.token p.body e redis
          (λ later token owner le read.
            coherent later token owner (omega (arith, le, order.0)) read) in
      let (done, links') =
        heartbeats-IsCoherent env rate p.now now ps
          (heartbeat H env p.now p.client rate p.token p.body e).1 redis order.1 kept in
      (done, links' ∙ links)

  -- From an empty cache, while the jobs stay as they are, after any heartbeats in the order of their times, a heartbeat
  -- that is accepted, where there is a broker, publishes one event behind what was published: of a job that has its
  -- token, for that job's organisation, with what the heartbeat says.
  pub heartbeat-Owns :
      (env : ExecEvent → Env) (rate : ℕ) (earlier : List Post) (now client token : ℕ)
      (b : HeartbeatBody) (e : Entry H)
      → IsRedis H
      → ((t k : ℕ) → H.get t k e.cached ≡ none)
      → IsInOrder 0 earlier now
      → (heartbeats env rate earlier e).sink.connected ≡ true
      → (heartbeat H env now client rate token b (heartbeats env rate earlier e)).0 ≡ ok tt
      → (j : JobLink) × Mem j e.links
        × (j.heartbeat_token ≡ token)
        × ((ev : ExecEvent) × ((heartbeat H env now client rate token b
                (heartbeats env rate earlier e)).1.sink.published
              ≡ (heartbeats env rate earlier e).sink.published ++ (ev ∷ []))
            × Says now client j b ev)
  unfolding heartbeat heartbeat_event
  heartbeat-Owns env rate earlier now client token b e redis empty order on h =
      let now_s = now / 1000000 in
      let before = heartbeats env rate earlier e in
      let (coherent, links) =
        heartbeats-IsCoherent env rate 0 now earlier e redis order
          (λ later token owner le read. let nothing = empty later token in cc) in
      let (found, answer, sent) =
        emit_for-sent env now client rate token b before (resolve H now_s token before) h in
      let (owns, kept, same, sink) = resolve-Owns now_s token before found redis coherent answer in
      let (j, m, its, is_its) = owns in
      let ev = heartbeat_event now client found.0 b in
      let on' : found.1.sink.connected ≡ true = ap (λ (s : Sink). s.connected) sink ∙ on in
      (
        j,
        subst (Mem j) links m,
        its,
        (
          ev,
          ap (λ (s : Sink). s.published) (sent ∙ emit-connected env ev found.1.sink on')
              ∙ ap (λ (s : Sink). s.published ++ (ev ∷ [])) sink,
          record {
            org_id = ap (λ (o : Owner). o.0) (sym is_its);
            job_id = ap (λ (o : Owner). o.1) (sym is_its);
            agent_id = refl;
            kind = refl;
            run = (refl, refl);
            times = (refl, refl);
            outcome = (refl, refl);
            host = refl;
            tails = (refl, refl);
          },
        ),
      )
