-- ===== src/Reconciler/Pass.antt =====
-- workers/reconciler.py: the jobs that a tick touched, the state pass over them, and `tick`.
pub mod Keeps
pub mod Pairs
pub mod Touched
pub mod Batches
pub mod Flips
use jobwatch.Prelude.{
  ℕ, zero, suc, ◌+◌, ◌*◌, ◌-◌, Bool, true, false, ◌&&◌, ◌||◌, not, Option, none, some, List, [],
  ◌∷◌, ◌++◌, map, ◌==◌, ltb, if◌then◌else◌, any_of, keep_if, take, drop,
}
use jobwatch.Status.{JobState, UnknownReason, eq_state, eq_reason}
use jobwatch.Schedule.{seconds}
use jobwatch.Db.{Uuid, Job, Agent, Db, agent_of}
use jobwatch.JobState.{StatusEvent, recompute_state}
use jobwatch.Reconciler.{
  to_skip, to_late, to_miss, to_time_out, touched_by, settle_maintenance, mark_slots_late,
  mark_missed, mark_timeouts, settle_slots,
}

-- SQL's truth values: `none` is NULL.
abbrev pub sql_and : Option Bool → Option Bool → Option Bool
sql_and (some false) b = some false
sql_and (some true) b = b
sql_and none (some false) = some false
sql_and none _ = none

abbrev pub sql_ne : Option Bool → Option Bool → Option Bool
sql_ne (some true) (some b) = some (not b)
sql_ne (some false) (some b) = some b
sql_ne _ _ = none

-- A WHERE clause selects on true alone.
abbrev pub selects : Option Bool → Bool
selects (some true) = true
selects _ = false

abbrev pub reason_is : UnknownReason → Option UnknownReason → Option Bool
reason_is r none = none
reason_is r (some s) = some (eq_reason (some s) (some r))

-- job_state='unknown' AND unknown_reason='...'
abbrev pub unknown_as : UnknownReason → Job → Option Bool
unknown_as r j =
    sql_and (some (eq_state j.job_state JobState.unknown)) (reason_is r j.unknown_reason)

-- a.last_seen_at < now() - make_interval(secs => a.heartbeat_interval_s * 3)
abbrev pub went_quiet : ℕ → Agent → Option Bool
went_quiet now a = elim a.last_seen_at [
  | none ↦ none
  | some seen ↦ some (ltb (seen + seconds (a.heartbeat_interval_s * 3)) now)
]

abbrev pub agent_flips : ℕ → Job → Option Agent → Bool
agent_flips now j none = false
agent_flips now j (some a) =
    selects (sql_ne (went_quiet now a) (unknown_as UnknownReason.agent_offline j))

-- The agent of the job went quiet, or came back, and its row does not say so.
unfoldable pub agent_flipped : Db → ℕ → Job → Bool
agent_flipped db now j = agent_flips now j (agent_of db j)

unfoldable pub pause_flipped : Job → Bool
pause_flipped j = selects (sql_ne (some j.paused) (unknown_as UnknownReason.paused j))

abbrev pub job_pairs : (Job → Bool) → Db → List (ℕ × ℕ)
job_pairs p db = map (λ j. (j.id, j.org_id)) (keep_if p db.jobs)

-- The pairs that `settle` adds to its set, in its order.
unfoldable pub touched : ℕ → Db → List (ℕ × ℕ)
unfolding to_skip to_late to_miss to_time_out settle_maintenance mark_slots_late mark_missed
    settle_slots agent_flipped pause_flipped
touched now db =
    let skipped = settle_maintenance now db in
    let late = mark_slots_late now skipped in
    let missed = mark_missed now late in
    touched_by (to_skip db now) db
    ++ (touched_by (to_late now) skipped
        ++ (touched_by (to_miss now) late
            ++ (touched_by (to_time_out missed now) missed
                ++ (job_pairs (agent_flipped (settle_slots now db) now) db
                    ++ job_pairs pause_flipped db))))

-- sorted(set, key=str): every pair once. The text of a pair of UUIDs has a fixed width, so its order is that of
-- the numbers.
abbrev pub pair_before : ℕ × ℕ → ℕ × ℕ → Bool
pair_before (a, b) (c, d) = ltb a c || (a == c && ltb b d)

abbrev pub same_pair : ℕ × ℕ → ℕ × ℕ → Bool
same_pair (a, b) (c, d) = a == c && b == d

unfoldable pub insert_pair : ℕ × ℕ → List (ℕ × ℕ) → List (ℕ × ℕ)
insert_pair p [] = p ∷ []
insert_pair p (q ∷ qs) =
    let rest = q ∷ insert_pair p qs in
    if same_pair p q then q ∷ qs else if pair_before p q then p ∷ q ∷ qs else rest

unfoldable pub sorted_pairs : List (ℕ × ℕ) → List (ℕ × ℕ)
unfolding insert_pair
sorted_pairs [] = []
sorted_pairs (p ∷ ps) = insert_pair p (sorted_pairs ps)

abbrev pub append_event : Option StatusEvent → List StatusEvent → List StatusEvent
append_event none evs = evs
append_event (some ev) evs = ev ∷ evs

-- `recompute`: the events of the jobs, in order, and the tables afterwards.
unfoldable pub recompute : ℕ → List (ℕ × ℕ) → Db → List StatusEvent × Db
unfolding recompute_state
recompute now [] db = ([], db)
recompute now ((job_id, org_id) ∷ ps) db =
    let (ev, db') = recompute_state job_id org_id now db in
    let (evs, after) = recompute now ps db' in (append_event ev evs, after)

unfoldable pub tick : ℕ → Db → List StatusEvent × Db
unfolding recompute settle_slots touched sorted_pairs
tick now db = recompute now (sorted_pairs (touched now db)) (settle_slots now db)

abbrev pub recompute_batch : ℕ
recompute_batch = 100

-- The loop of `main` over `range(0, len(touched), RECOMPUTE_BATCH)`, with one step of fuel per batch: the events
-- that are published, in order. Each batch is a transaction and has a now() of its own, which the clock gives by the
-- batch's number.
unfoldable pub recompute_batches : ℕ → ℕ → (ℕ → ℕ) → List (ℕ × ℕ) → Db → List StatusEvent × Db
unfolding recompute
recompute_batches zero size clock ps db = ([], db)
recompute_batches (suc fuel) size clock [] db = ([], db)
recompute_batches (suc fuel) size clock (p ∷ ps) db =
    let (evs, db') = recompute (clock 0) (take size (p ∷ ps)) db in
    let (rest, after) = recompute_batches fuel size (λ n. clock (suc n)) (drop size (p ∷ ps)) db' in
    (evs ++ rest, after)
