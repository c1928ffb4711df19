-- ===== src/Reports/Batch.antt =====
-- What a batch of routers/agents.py comes to: which reports are published, and how they are counted.
use jobwatch.Prelude.{
  ℕ, ◌+◌, ◌≡◌, ◌∙◌, ap, sym, refl, subst, true, inl, inr, Option, none, some, List, [], ◌∷◌, ◌++◌,
  ◌==◌, ==_iff, Mem, take, find_first, find_first-holds, find_first-none, Option-cases,
  some-injective, and-true, if◌then◌else◌,
}
use jobwatch.Db.{Uuid}
use jobwatch.Ingest.{ExecEvent, Env, Kind}
use jobwatch.Processor.{process}
use jobwatch.Http.{ok, past-part, ok-injective}
use mathlib.Core.List.{append-nil, append_assoc}
use jobwatch.Fleet.{AgentPrincipal}
use jobwatch.Reports.{
  JobLink, Sink, emit, emit_all, Reported, progress, of_run, AgentEvent, batch_limit, has_token,
  has_fingerprint, find_link, eq_option,
}
use jobwatch.Reports.Events.{agent_event, Sorted, sort_one, sort_events, keep_progress, events}

-- A report names a job: by its token, or by its fingerprint.
pub data Names (e : AgentEvent) (j : JobLink) : Type 0 where
  by_token : e.job_token ≡ some j.heartbeat_token → Names e j
  by_fingerprint : (f : ℕ) → e.fingerprint ≡ some f → j.fingerprint ≡ some f → Names e j

-- The event tells what the report does, for the agent and its organisation, of a job of it that the report names.
pub record Tells (now : ℕ) (a : AgentPrincipal) (links : List JobLink) (e : AgentEvent) (k : Kind)
    (ev : ExecEvent) : Type 0 where
  pub org_id : ev.org_id ≡ a.org_id
  pub agent_id : ev.agent_id ≡ some a.agent_id
  pub job : (j : JobLink) × Mem j links × (j.org_id ≡ a.org_id) × Names e j × (ev.job_id ≡ j.id)
  pub kind : ev.kind ≡ k
  pub run : (ev.execution_id ≡ e.body.execution_id) × (ev.sequence ≡ e.body.sequence)
  pub times : (ev.agent_ts ≡ e.body.agent_ts) × (ev.server_ts ≡ some now)
  pub outcome : (ev.duration_ms ≡ e.body.duration_ms) × (ev.exit_code ≡ e.body.exit_code)
  pub host : ev.host ≡ e.body.host
  pub tails : (ev.stdout_tail ≡ e.body.stdout_tail) × (ev.stderr_tail ≡ e.body.stderr_tail)

-- A batch, the events that are made of it, one for each report of a run in its order, and the counts of accepted and
-- dropped reports. A report is dropped if no job of the organisation is named by it.
pub data Sends (now : ℕ) (a : AgentPrincipal) (links : List JobLink)
    : List AgentEvent → List ExecEvent → ℕ → ℕ → Type 0 where
  all_sorted : Sends now a links [] [] 0 0
  unnamed :
      {e : AgentEvent} {es : List AgentEvent} {out : List ExecEvent} {n m : ℕ}
      → ((j : JobLink) → Mem j links → j.org_id ≡ a.org_id → ¬ Names e j)
      → Sends now a links es out n m
      → Sends now a links (e ∷ es) out n (m + 1)
  noted :
      {e : AgentEvent} {es : List AgentEvent} {out : List ExecEvent} {n m : ℕ}
      → e.kind ≡ progress
      → (j : JobLink) → Mem j links
      → j.org_id ≡ a.org_id
      → Names e j
      → Sends now a links es out n m
      → Sends now a links (e ∷ es) out (n + 1) m
  sent :
      {e : AgentEvent} {es : List AgentEvent} {ev : ExecEvent} {out : List ExecEvent} {n m : ℕ}
      (k : Kind)
      → e.kind ≡ of_run k
      → Tells now a links e k ev
      → Sends now a links es out n m
      → Sends now a links (e ∷ es) (ev ∷ out) (n + 1) m

token-names :
    (org : Uuid) (e : AgentEvent) (j : JobLink)
    → has_token org e.job_token j ≡ true
    → (j.org_id ≡ org) × Names e j
token-names org e j h = elim (Option-cases e.job_token) [
  | inl n ↦ cc (rw n at h)
  | inr (t, q) ↦
      let (own, same) = and-true (j.org_id == org) (j.heartbeat_token == t) (rw q at h) in
      (
        (==_iff j.org_id org).0 own,
        by_token (q ∙ ap some (sym ((==_iff j.heartbeat_token t).0 same))),
      )
]

option_same : (o : Option ℕ) (x : ℕ) → eq_option o x ≡ true → o ≡ some x
option_same none x h = cc
option_same (some y) x h = ap some ((==_iff y x).0 h)

same_option : (o : Option ℕ) (x : ℕ) → o ≡ some x → eq_option o x ≡ true
same_option none x h = cc
same_option (some y) x h = (==_iff y x).1 (some-injective y x h)

fingerprint-names :
    (org : Uuid) (e : AgentEvent) (j : JobLink)
    → has_fingerprint org e.fingerprint j ≡ true
    → (j.org_id ≡ org) × Names e j
fingerprint-names org e j h = elim (Option-cases e.fingerprint) [
  | inl n ↦ cc (rw n at h)
  | inr (f, q) ↦
      let (own, same) = and-true (j.org_id == org) (eq_option j.fingerprint f) (rw q at h) in
      ((==_iff j.org_id org).0 own, by_fingerprint f q (option_same j.fingerprint f same))
]

find_link-some :
    (org : Uuid) (e : AgentEvent) (links : List JobLink) (j : JobLink)
    → find_link org e links ≡ some j
    → Mem j links × (j.org_id ≡ org) × Names e j
unfolding find_link
find_link-some org e links j h =
    elim (Option-cases (find_first (has_token org e.job_token) links)) [
      | inl missing ↦
          let (holds, mem) =
            find_first-holds (has_fingerprint org e.fingerprint) links (rw missing at h) in
          let (own, named) = fingerprint-names org e j holds in (mem, own, named)
      | inr (k, found) ↦
          let same : k ≡ j = some-injective _ _ (rw found at h) in
          let (holds, mem) = find_first-holds (has_token org e.job_token) links found in
          let names = token-names org e k holds in
          subst (λ x. Mem x links × (x.org_id ≡ org) × Names e x) same (mem, names.0, names.1)
    ]

find_link-none :
    (org : Uuid) (e : AgentEvent) (links : List JobLink)
    → find_link org e links ≡ none
    → (j : JobLink) → Mem j links
    → j.org_id ≡ org
    → ¬ Names e j
unfolding find_link
find_link-none org e links h j m own named =
    elim (Option-cases (find_first (has_token org e.job_token) links)) [
      | inr (k, found) ↦ cc (rw found at h)
      | inl missing ↦ elim named [
        | by_token q ↦
            let off = find_first-none (has_token org e.job_token) links missing j m in
            cc (
              rw
                (
                  q,
                  (==_iff j.org_id org).1 own,
                  (==_iff j.heartbeat_token j.heartbeat_token).1 refl,
                )
                at off)
        | by_fingerprint f q p ↦
            let off =
              find_first-none (has_fingerprint org e.fingerprint) links (rw missing at h) j m in
            cc (rw (q, (==_iff j.org_id org).1 own, same_option j.fingerprint f p) at off)
      ]
    ]

module _ (now : ℕ) (a : AgentPrincipal) (links : List JobLink) where
  sort_one-Sends :
      (e : AgentEvent) (es : List AgentEvent) (kind : Reported) (link : Option JobLink)
      (rest : Sorted)
      → e.kind ≡ kind
      → find_link a.org_id e links ≡ link
      → Sends now a links es rest.out rest.accepted rest.dropped
      → Sends now a links
          (e ∷ es)
          (sort_one now a e kind link rest).out
          (sort_one now a e kind link rest).accepted
          (sort_one now a e kind link rest).dropped
  unfolding agent_event
  sort_one-Sends e es kind none rest is_kind found s =
      unnamed (find_link-none a.org_id e links found) s
  sort_one-Sends e es progress (some j) rest is_kind found s =
      let (m, own, named) = find_link-some a.org_id e links j found in noted is_kind j m own named s
  sort_one-Sends e es (of_run k) (some j) rest is_kind found s =
      let (m, own, named) = find_link-some a.org_id e links j found in
      sent k is_kind
        (record {
          org_id = refl;
          agent_id = refl;
          job = (j, m, own, named, refl);
          kind = refl;
          run = (refl, refl);
          times = (refl, refl);
          outcome = (refl, refl);
          host = refl;
          tails = (refl, refl);
        })
        s

  sort_events-Sends :
      (es : List AgentEvent)
      → let s = sort_events now a links es in Sends now a links es s.out s.accepted s.dropped
  unfolding sort_events
  sort_events-Sends [] = all_sorted
  sort_events-Sends (e ∷ es) =
      sort_one-Sends e es e.kind (find_link a.org_id e links) (sort_events now a links es) refl refl
        (sort_events-Sends es)

pub emit-connected :
    (env : ExecEvent → Env) (ev : ExecEvent) (s : Sink)
    → s.connected ≡ true
    → emit env ev s ≡ record s { published = s.published ++ (ev ∷ []) }
unfolding emit
emit-connected env ev s on =
    ap
      (λ b.
        if b
        then record s { published = s.published ++ (ev ∷ []) }
        else record s { db = (process (env ev) ev s.db).1 })
      on

emit_all-published :
    (env : ExecEvent → Env) (evs : List ExecEvent) (s : Sink)
    → s.connected ≡ true
    → (emit_all env evs s).published ≡ s.published ++ evs
unfolding emit_all
emit_all-published env [] s on = sym (append-nil s.published)
emit_all-published env (ev ∷ evs) s on =
    ap (λ (t : Sink). (emit_all env evs t).published) (emit-connected env ev s on)
    ∙ emit_all-published env evs (record s { published = s.published ++ (ev ∷ []) }) on
    ∙ append_assoc s.published (ev ∷ []) evs

-- Where a batch is answered and there is a broker, what is published behind what was is one event for each report of a
-- run among the first 500 that names a job of the agent's organisation, in the order of the reports; each tells what its
-- report does, of such a job; the reports that name one are counted as accepted, and the others as dropped.
pub events-published :
    (env : ExecEvent → Env) (now : ℕ) (a : AgentPrincipal) (links : List JobLink)
    (batch : List AgentEvent) (s after : Sink) (accepted dropped : ℕ)
    → s.connected ≡ true
    → events env now a links batch s ≡ ok ((accepted, dropped), after)
    → (out : List ExecEvent) × (after.published ≡ s.published ++ out)
      × Sends now a links (take 500 batch) out accepted dropped
unfolding events
events-published env now a links batch s after accepted dropped on h =
    let evs = take batch_limit batch in
    let sorted = sort_events now a links evs in
    let (db, kept, end) = past-part (keep_progress now a evs s.db) _ h in
    let in_order = emit_all-published env sorted.out (record s { db = db }) on in
    subst
      (λ (x : (ℕ × ℕ) × Sink).
        (out : List ExecEvent) × (x.1.published ≡ s.published ++ out)
        × Sends now a links evs out x.0.0 x.0.1)
      (ok-injective end) (sorted.out, in_order, sort_events-Sends now a links evs)
