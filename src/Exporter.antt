-- ===== src/Exporter.antt =====
-- cronsentinel/workers/outbound_exporter.py: which settled slots a poll hands out, and which destinations a signal
-- goes to.
pub mod Polls
use jobwatch.Prelude.{
  ℕ, ◌+◌, max, Bool, true, false, ◌&&◌, ◌||◌, not, Option, none, some, List, [], ◌∷◌, ◌++◌, map,
  ◌==◌, ltb, leb, if◌then◌else◌, keep_if, elem, take, length, coalesce,
}
use jobwatch.Status.{SlotState}
use jobwatch.Db.{Uuid, ExecId, ExpectedRun, Execution, Db, eq_exec}

-- The kinds of signal (EVENT_TYPES of outbound/schema.py) are numbers.
pub record Destination : Type 0 where
  pub id : Uuid
  pub org_id : Uuid
  pub enabled : Bool
  pub event_types : List ℕ
  pub workspace_ids : List Uuid

abbrev pub is_empty : List ℕ → Bool
is_empty [] = true
is_empty (x ∷ xs) = false

-- CAST(:ws AS uuid) = ANY(workspace_ids), where NULL is in no list.
abbrev pub holds_workspace : Option Uuid → List Uuid → Bool
holds_workspace none ids = false
holds_workspace (some ws) ids = elem ws ids

abbrev pub takes : Uuid → ℕ → Option Uuid → Destination → Bool
takes org event_type workspace d =
    (d.org_id == org && d.enabled)
    && ((is_empty d.event_types || elem event_type d.event_types)
        && (is_empty d.workspace_ids || holds_workspace workspace d.workspace_ids))

-- `_destinations`, and the deliveries that `fanout` queues.
unfoldable pub destinations : Uuid → ℕ → Option Uuid → List Destination → List Uuid
destinations org event_type workspace ds =
    map (λ (d : Destination). d.id) (keep_if (takes org event_type workspace) ds)

-- A row of the poll: a slot with an execution of its identifier, if there is one.
pub record PollRow : Type 0 where
  pub run : ExpectedRun
  pub execution : Option Execution
  pub settled_at : ℕ

-- er.state IN ('succeeded','failed','missed')
abbrev pub is_reported : SlotState → Bool
is_reported SlotState.succeeded = true
is_reported SlotState.failed = true
is_reported SlotState.missed = true
is_reported _ = false

abbrev pub is_of : Option ExecId → Execution → Bool
is_of none e = false
is_of (some id) e = eq_exec e.id id

abbrev pub with_execution : ExpectedRun → ℕ → List Execution → List PollRow
with_execution r t [] = record { run = r; execution = none; settled_at = t } ∷ []
with_execution r t (e ∷ es) =
    map (λ x. record { run = r; execution = some x; settled_at = t }) (e ∷ es)

-- A slot without `settled_at` is not selected.
abbrev pub rows_at : ℕ → Db → ExpectedRun → Option ℕ → List PollRow
rows_at since db r none = []
rows_at since db r (some t) =
    let rows = with_execution r t (keep_if (is_of r.execution_id) db.executions) in
    if ltb since t && is_reported r.state then rows else []

unfoldable pub poll_rows : ℕ → Db → List ExpectedRun → List PollRow
poll_rows since db [] = []
poll_rows since db (r ∷ rs) = rows_at since db r r.settled_at ++ poll_rows since db rs

-- ORDER BY er.settled_at
unfoldable pub insert_settled : PollRow → List PollRow → List PollRow
insert_settled p [] = p ∷ []
insert_settled p (q ∷ qs) =
    let rest = q ∷ insert_settled p qs in if leb p.settled_at q.settled_at then p ∷ q ∷ qs else rest

unfoldable pub by_settled : List PollRow → List PollRow
unfolding insert_settled
by_settled [] = []
by_settled (p ∷ ps) = insert_settled p (by_settled ps)

abbrev pub poll_limit : ℕ
poll_limit = 500

-- `last = max(last, r.settled_at)` over the rows.
unfoldable pub last_settled_at : ℕ → List PollRow → ℕ
last_settled_at last [] = last
last_settled_at last (p ∷ ps) = last_settled_at (max last p.settled_at) ps

-- The rows that `poll_slots` fans out, in their order, and the next high-water mark.
unfoldable pub poll_slots : ℕ → Db → List PollRow × ℕ
unfolding poll_rows by_settled last_settled_at
poll_slots since db =
    let rows = take poll_limit (by_settled (poll_rows since db db.expected_runs)) in
    (rows, last_settled_at since rows)
