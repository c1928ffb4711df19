-- ===== src/Reports/Shadow.antt =====
-- What the progress reports of routers/agents.py do to later events of a run, whosever it is.
use jobwatch.Prelude.{
  ℕ, ◌≡◌, ◌∙◌, ap, sym, refl, true, not, is_some, inl, inr, Option, none, some, List, [], ◌∷◌, ◌++◌,
  Mem, head, tail, ==_iff, take, any_of, Mem-any_of, Mem-append_right, Mem-append_left, any_of-Mem,
  keep_if, keep_if-Mem, Bool-cases,
}
use jobwatch.Db.{ExecId, Db}
use jobwatch.Ingest.{ExecEvent, Env, seen_event, same_event}
use jobwatch.Processor.{process}
use jobwatch.Processor.Once.{eq_exec_refl, process-seen}
use jobwatch.Http.{ok, past-part, past-guard, ok-injective}
use jobwatch.Fleet.{AgentPrincipal}
use jobwatch.Reports.{JobLink, Sink, emit_all, AgentEvent, batch_limit}
use jobwatch.Reports.Batch.{emit-connected}
use jobwatch.Reports.Events.{
  is_progress, put_progress, store_progress, see_agent, keep_progress, sort_events, events,
}

module _ (now : ℕ) (a : AgentPrincipal) where
  seen-put :
      (e : AgentEvent) (o : Option ExecId) (id : ExecId) (seq : ℕ) (db : Db)
      → seen_event id seq db ≡ true
      → seen_event id seq (put_progress now a e o db) ≡ true
  unfolding seen_event
  seen-put e none id seq db h = h
  seen-put e (some k) id seq db h = elim (Bool-cases (seen_event k e.body.sequence db)) [
    | inl old ↦ rw old h
    | inr new ↦
        let (r, m, t) = any_of-Mem (same_event id seq) db.events h in
        rw new (Mem-any_of (same_event id seq) (Mem-append_left _ m) t)
  ]

  put-seen :
      (e : AgentEvent) (id : ExecId) (db : Db)
      → seen_event id e.body.sequence (put_progress now a e (some id) db) ≡ true
  unfolding seen_event
  put-seen e id db = elim (Bool-cases (seen_event id e.body.sequence db)) [
    | inl old ↦ rw old old
    | inr new ↦ rw new (
        Mem-any_of (same_event id e.body.sequence) (Mem-append_right db.events head)
          (rw (eq_exec_refl id, (==_iff e.body.sequence e.body.sequence).1 refl) refl))
  ]

  seen-store :
      (es : List AgentEvent) (id : ExecId) (seq : ℕ) (db : Db)
      → seen_event id seq db ≡ true
      → seen_event id seq (store_progress now a es db) ≡ true
  unfolding store_progress
  seen-store [] id seq db h = h
  seen-store (e ∷ es) id seq db h =
      seen-store es id seq (put_progress now a e e.body.execution_id db)
        (seen-put e e.body.execution_id id seq db h)

  store-seen :
      (es : List AgentEvent) (e : AgentEvent) (id : ExecId) (db : Db)
      → Mem e es
      → e.body.execution_id ≡ some id
      → seen_event id e.body.sequence (store_progress now a es db) ≡ true
  unfolding store_progress
  store-seen (e ∷ es) e' id db head given_id =
      seen-store es id e.body.sequence (put_progress now a e e.body.execution_id db) (
        ap (λ o. seen_event id e.body.sequence (put_progress now a e o db)) given_id
        ∙ put-seen e id db)
  store-seen (k ∷ es) e id db (tail m) given_id =
      store-seen es e id (put_progress now a k k.body.execution_id db) m given_id
  store-seen [] e id db m given_id = elim m [ ]

emit_all-db :
    (env : ExecEvent → Env) (evs : List ExecEvent) (s : Sink)
    → s.connected ≡ true
    → (emit_all env evs s).db ≡ s.db
unfolding emit_all
emit_all-db env [] s on = refl
emit_all-db env (ev ∷ evs) s on =
    ap (λ (t : Sink). (emit_all env evs t).db) (emit-connected env ev s on)
    ∙ emit_all-db env evs (record s { published = s.published ++ (ev ∷ []) }) on

-- Where there is a broker, after a progress report of any agent that is among the first 500 of a batch that is answered,
-- an event of any organisation's run that has the report's execution_id and sequence is dropped as a duplicate, if it is
-- the next to be processed: it changes nothing and announces nothing.
pub progress-shadows :
    (env : ExecEvent → Env) (now : ℕ) (a : AgentPrincipal) (links : List JobLink)
    (batch : List AgentEvent) (s after : Sink) (counts : ℕ × ℕ) (e : AgentEvent) (id : ExecId)
    (later : Env) (ev : ExecEvent)
    → s.connected ≡ true
    → events env now a links batch s ≡ ok (counts, after)
    → Mem e (take batch_limit batch)
    → is_progress e ≡ true
    → e.body.execution_id ≡ some id
    → ev.execution_id ≡ some id
    → ev.sequence ≡ e.body.sequence
    → process later ev after.db ≡ (none, after.db)
unfolding events keep_progress
progress-shadows env now a links batch s after counts e id later ev on h mem is_report given_id
      same_id same_seq =
    let evs = take batch_limit batch in
    let reports = keep_if is_progress evs in
    let (db, kept, end) = past-part (keep_progress now a evs s.db) _ h in
    let (have_ids, stored) =
      past-guard (any_of (λ (k : AgentEvent). not (is_some k.body.execution_id)) reports) 500
        (λ _. ok (see_agent now a.agent_id (store_progress now a reports s.db))) kept in
    let there : seen_event id e.body.sequence db ≡ true =
      ap (seen_event id e.body.sequence) (sym (ok-injective stored))
      ∙ store-seen now a reports e id s.db (keep_if-Mem is_progress evs mem is_report) given_id in
    let same_db : after.db ≡ db =
      ap (λ (x : (ℕ × ℕ) × Sink). x.1.db) (sym (ok-injective end))
      ∙ emit_all-db env (sort_events now a links evs).out (record s { db = db }) on in
    process-seen later ev id after.db same_id (
      ap (λ n. seen_event id n after.db) same_seq
      ∙ ap (seen_event id e.body.sequence) same_db
      ∙ there)
