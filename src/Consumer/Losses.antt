-- ===== src/Consumer/Losses.antt =====
-- What the redeliveries of workers/exec_processor.py publish after a failed publication.
use jobwatch.Prelude.{
  ◌≡◌, inl, inr, refl, sym, ap, ◌∙◌, subst, true, false, Option, none, some, List, [], ◌∷◌,
  Bool-cases, if◌then◌else◌,
}
use jobwatch.Db.{ExecId, Db}
use jobwatch.JobState.{StatusEvent}
use jobwatch.Ingest.{ExecEvent, Env}
use jobwatch.Processor.{handle_one, changed_only}
use jobwatch.Processor.Once.{process_twice}
use jobwatch.Consumer.{Round, Handled, publish, drain_one, deliveries, add_published}

-- The tables after the transaction of an event: it is a duplicate from then on.
handle_one-again :
    (env later : Env) (ev : ExecEvent) (id : ExecId) (db : Db)
    → ev.execution_id ≡ some id
    → handle_one later ev (handle_one env ev db).1 ≡ (none, (handle_one env ev db).1)
unfolding handle_one
handle_one-again env later ev id db given_id =
    ap (λ (r : Option StatusEvent × Db). (changed_only r.0, r.1))
      (process_twice env later ev id db given_id)

drain_one-again :
    (env : Env) (ev : ExecEvent) (id : ExecId) (db : Db) (d : Round)
    → ev.execution_id ≡ some id
    → (drain_one ev d (handle_one env ev db).1).published ≡ none
      × ((drain_one ev d (handle_one env ev db).1).db ≡ (handle_one env ev db).1)
unfolding drain_one
drain_one-again env ev id db d given_id = elim (Bool-cases d.session_fails) [
  | inl t ↦ rw t (refl, refl)
  | inr n ↦ rw n (
      subst
        (λ (r : Option StatusEvent × Db).
          ((publish d.publish_fails d.ack_fails r.0 r.1).published ≡ none)
          × ((publish d.publish_fails d.ack_fails r.0 r.1).db ≡ (handle_one env ev db).1))
        (sym (handle_one-again env d.env ev id db given_id)) (refl, refl))
]

deliveries-again :
    (env : Env) (ev : ExecEvent) (id : ExecId) (db after : Db) (ds : List Round)
    → ev.execution_id ≡ some id
    → after ≡ (handle_one env ev db).1
    → deliveries ev ds after ≡ []
unfolding deliveries
deliveries-again env ev id db after [] given_id e = refl
deliveries-again env ev id db after (d ∷ ds) given_id e =
    let (quiet, same) = drain_one-again env ev id db d given_id in
    let h = drain_one ev d after in
    let quiet' : h.published ≡ none = ap (λ x. (drain_one ev d x).published) e ∙ quiet in
    let same' : h.db ≡ (handle_one env ev db).1 = ap (λ x. (drain_one ev d x).db) e ∙ same in
    let ih = deliveries-again env ev id db h.db ds given_id same' in
    ap (λ o. add_published o (if h.acked then [] else deliveries ev ds h.db)) quiet'
    ∙ elim (Bool-cases h.acked) [ inl t ↦ rw t refl | inr n ↦ rw n ih ]

first-lost :
    (ev : ExecEvent) (first : Round) (res : StatusEvent) (db : Db)
    → (handle_one first.env ev db).0 ≡ some res
    → first.session_fails ≡ false
    → first.publish_fails ≡ true
    → drain_one ev first db
      ≡ record { published = none; acked = false; db = (handle_one first.env ev db).1 }
unfolding drain_one
first-lost ev first res db change committed failed = rw committed (
    ap (λ o. publish first.publish_fails first.ack_fails o (handle_one first.env ev db).1) change
    ∙ ap (λ b. publish b first.ack_fails (some res) (handle_one first.env ev db).1) failed)

-- Where a change of status is committed and its publication fails, no redelivery publishes it: of all
-- deliveries of the message nothing goes out, if the sender gave the event an execution_id.
pub deliveries-lost :
    (ev : ExecEvent) (id : ExecId) (first : Round) (later : List Round) (res : StatusEvent)
    (db : Db)
    → ev.execution_id ≡ some id
    → (handle_one first.env ev db).0 ≡ some res
    → first.session_fails ≡ false
    → first.publish_fails ≡ true
    → deliveries ev (first ∷ later) db ≡ []
unfolding deliveries
deliveries-lost ev id first later res db given_id change committed failed =
    let after = (handle_one first.env ev db).1 in
    ap
      (λ (h : Handled).
        add_published h.published (if h.acked then [] else deliveries ev later h.db))
      (first-lost ev first res db change committed failed)
    ∙ deliveries-again first.env ev id db after later given_id refl
