-- ===== src/Processor/Once.antt =====
-- Idempotence of `process` in processor.py on (execution_id, sequence).
use jobwatch.Prelude.{
  ℕ, ◌≡◌, inl, inr, sym, ap, ◌∙◌, subst, Bool, true, none, some, List, [], ◌∷◌, ◌++◌, arith,
  Bool-cases, any_of, coalesce,
}
use jobwatch.Db.{ExecId, given, missed_id, EventRow, Db, eq_exec}
use jobwatch.Ingest.{ExecEvent, Env, seen_event, same_event, record_event}
use jobwatch.Processor.{process, process_as, apply_found, own_job}
use jobwatch.Processor.Frame.{apply_found-events}

pub eq_exec_refl : (id : ExecId) → eq_exec id id ≡ true
eq_exec_refl (given n) = ground arith
eq_exec_refl (missed_id a b) = ground arith

any_of-append_last :
    (p : EventRow → Bool) (xs : List EventRow) (x : EventRow)
    → p x ≡ true
    → any_of p (xs ++ (x ∷ [])) ≡ true
any_of-append_last p [] x h = rw h
any_of-append_last p (y ∷ ys) x h = rw (any_of-append_last p ys x h) (ground arith)

-- An event that was recorded is seen.
seen-record_event :
    (ev : ExecEvent) (id : ExecId) (server_ts : ℕ) (db : Db)
    → seen_event id ev.sequence (record_event ev id server_ts db) ≡ true
unfolding seen_event record_event
seen-record_event ev id server_ts db =
    any_of-append_last (same_event id ev.sequence) db.events _ (rw (eq_exec_refl id) (ground arith))

seen_of_events :
    (id : ExecId) (seq : ℕ) (a b : Db)
    → b.events ≡ a.events
    → seen_event id seq b ≡ seen_event id seq a
unfolding seen_event
seen_of_events id seq a b h = ap (any_of (same_event id seq)) h

seen-process_as :
    (env : Env) (ev : ExecEvent) (id : ExecId) (server_ts : ℕ) (db : Db)
    → seen_event id ev.sequence (process_as env ev id server_ts db).1 ≡ true
unfolding process_as
seen-process_as env ev id server_ts db = elim (Bool-cases (seen_event id ev.sequence db)) [
  | inl old ↦ rw old old
  | inr new ↦
      let recorded = record_event ev id server_ts db in
      let after =
        (apply_found env ev id server_ts (own_job ev.job_id ev.org_id recorded) recorded).1 in
      rw new (
        seen_of_events id ev.sequence recorded after
          (apply_found-events env ev id server_ts (own_job ev.job_id ev.org_id recorded) recorded)
        ∙ seen-record_event ev id server_ts db)
]

process_as-seen :
    (env : Env) (ev : ExecEvent) (id : ExecId) (server_ts : ℕ) (db : Db)
    → seen_event id ev.sequence db ≡ true
    → process_as env ev id server_ts db ≡ (none, db)
unfolding process_as
process_as-seen env ev id server_ts db h = rw h

process-eq-process_as :
    (env : Env) (ev : ExecEvent) (id : ExecId) (db : Db)
    → ev.execution_id ≡ some id
    → process env ev db ≡ process_as env ev id (coalesce ev.server_ts env.now) db
unfolding process
process-eq-process_as env ev id db h =
    ap (λ o. process_as env ev (coalesce o env.new_id) (coalesce ev.server_ts env.now) db) h

-- An event whose identifier and sequence have been recorded.
pub process-seen :
    (env : Env) (ev : ExecEvent) (id : ExecId) (db : Db)
    → ev.execution_id ≡ some id
    → seen_event id ev.sequence db ≡ true
    → process env ev db ≡ (none, db)
process-seen env ev id db given_id seen =
    process-eq-process_as env ev id db given_id ∙ process_as-seen env ev id _ db seen

-- A redelivered event, at whatever time, changes nothing and announces nothing, if the sender gave it an
-- execution_id.
pub process_twice :
    (env env' : Env) (ev : ExecEvent) (id : ExecId) (db : Db)
    → ev.execution_id ≡ some id
    → process env' ev (process env ev db).1 ≡ (none, (process env ev db).1)
process_twice env env' ev id db h =
    process-eq-process_as env' ev id (process env ev db).1 h
    ∙ process_as-seen env' ev id _ (process env ev db).1 (
        subst (λ r. seen_event id ev.sequence r.1 ≡ true)
          (sym (process-eq-process_as env ev id db h))
          (seen-process_as env ev id (coalesce ev.server_ts env.now) db))
