-- ===== src/Attach/Choice.antt =====
-- The SQL choice of a slot in processor.py against `pick_slot` of schedule_engine.py.
use mathlib.Core.Path.{fun_ext}
use mathlib.Core.Option
use jobwatch.Prelude.{
  keep_if-map, keep_if-keep_if, least-map, ℕ, ◌≡◌, inl, inr, refl, sym, ap, ◌∙◌, subst, Bool, true,
  ◌&&◌, Option, some, List, map, arith, ◌==◌, keep_if, least, Bool-cases, Option-cases, Mem,
  Mem-keep_if, least-Mem, Mem-update_where, update_if,
}
use jobwatch.Status.{SlotState}
use jobwatch.Schedule.{Slot, pick_slot, in_window, match_window}
use jobwatch.Schedule.Matching.{nearer_slot}
use jobwatch.Db.{Uuid, ExecId, ExecStatus, ExpectedRun, Db}
use jobwatch.Attach.{
  is_open, can_attach, slot_for_start, attach_slot, attach_to, attached_state, bind_run,
}

-- The slot that a row stands for.
pub slot_of : ExpectedRun → Slot
slot_of r = record {
  scheduled_for = r.scheduled_for;
  grace_until = r.grace_until;
  deadline = r.deadline;
}

abbrev pub is_own_open : Uuid → Uuid → ExpectedRun → Bool
is_own_open org job_id r = (r.job_id == job_id && r.org_id == org) && is_open r.state

-- The job's open rows.
unfoldable pub open_runs : Uuid → Uuid → Db → List ExpectedRun
open_runs org job_id db = keep_if (is_own_open org job_id) db.expected_runs

can_attach-eq :
    (org job_id : Uuid) (ts : ℕ) (r : ExpectedRun)
    → can_attach org job_id ts r ≡ (is_own_open org job_id r && in_window ts (slot_of r))
unfolding can_attach in_window match_window slot_of
can_attach-eq org job_id ts r = ground arith

-- The row that an execution is bound to is the slot that `pick_slot` chooses among the job's open slots.
pub slot_for_start-eq-pick_slot :
    (org job_id : Uuid) (ts : ℕ) (db : Db)
    → Option.map slot_of (slot_for_start org job_id ts db)
      ≡ pick_slot (map slot_of (open_runs org job_id db)) ts
unfolding slot_for_start pick_slot open_runs slot_of
slot_for_start-eq-pick_slot org job_id ts db = sym (
    ap (least (nearer_slot ts)) (
      keep_if-map slot_of (in_window ts) (keep_if (is_own_open org job_id) db.expected_runs)
      ∙ ap (map slot_of) (
          keep_if-keep_if (is_own_open org job_id) (λ r. in_window ts (slot_of r)) db.expected_runs
          ∙ ap (λ p. keep_if p db.expected_runs)
              (fun_ext (λ r. sym (can_attach-eq org job_id ts r)))))
    ∙ least-map slot_of (nearer_slot ts) (keep_if (can_attach org job_id ts) db.expected_runs))

-- Row identifiers are unique, as the sequence behind them makes them.
pub record HasUniqueRuns (db : Db) : Type 0 where
  pub unique :
      (a b : ExpectedRun) → Mem a db.expected_runs → Mem b db.expected_runs → a.id ≡ b.id → a ≡ b

chosen_open :
    (org job_id : Uuid) (ts : ℕ) (db : Db) (row : ExpectedRun)
    → slot_for_start org job_id ts db ≡ some row
    → Mem row db.expected_runs × (is_open row.state ≡ true) × (row.job_id ≡ job_id)
unfolding slot_for_start can_attach
chosen_open org job_id ts db row h =
    let (listed, test) =
      Mem-keep_if (can_attach org job_id ts) db.expected_runs (least-Mem _ _ h) in
    (listed, ground arith, ground arith)

-- One row before and after: it is as it was, or it was the open slot of the job that was chosen and is
-- now bound to the execution.
pub data RowStep (job_id : Uuid) (exec_id : ExecId) (new : SlotState) (now : ℕ) (a b : ExpectedRun)
    : Type 0 where
  same : b ≡ a → RowStep job_id exec_id new now a b
  bound :
      is_open a.state ≡ true
      → a.job_id ≡ job_id
      → b ≡ bind_run exec_id new now a
      → RowStep job_id exec_id new now a b

chosen_or_same :
    {job_id : Uuid} {exec_id : ExecId} {new : SlotState} {now : ℕ} {db : Db} {b : ExpectedRun}
    → HasUniqueRuns db
    → (row a : ExpectedRun) → Mem row db.expected_runs
    → Mem a db.expected_runs
    → is_open row.state ≡ true
    → row.job_id ≡ job_id
    → b ≡ update_if (λ r. r.id == row.id) (bind_run exec_id new now) a
    → RowStep job_id exec_id new now a b
chosen_or_same {job_id} {b} distinct row a listed old was_open own after =
    elim (Bool-cases (a.id == row.id)) [
      | inl t ↦
          let e : a ≡ row = distinct.unique a row old listed (ground arith) in
          bound (rw e was_open) (rw e own) (rw t at after)
      | inr f ↦ same (rw f at after)
    ]

-- Binding an execution changes no slot but one open slot of the job: every row afterwards was there
-- before, or is that slot with the execution bound to it. A settled slot is never reopened or rebound.
pub attach_slot_keeps :
    (org job_id : Uuid) (ts : ℕ) (exec_id : ExecId) (status : ExecStatus) (now : ℕ) (db : Db)
    → HasUniqueRuns db
    → (b : ExpectedRun) → Mem b (attach_slot org job_id ts exec_id status now db).1.expected_runs
    → (a : ExpectedRun) × Mem a db.expected_runs
      × RowStep job_id exec_id (attached_state status) now a b
unfolding attach_slot
attach_slot_keeps org job_id ts exec_id status now db distinct b m =
    elim (Option-cases (slot_for_start org job_id ts db)) [
      | inl e ↦ (b, ap_mem e m, same refl)
      | inr (row, e) ↦
          let (listed, was_open, own) = chosen_open org job_id ts db row e in
          let (a, old, after) =
            Mem-update_where (λ r. r.id == row.id) (bind_run exec_id (attached_state status) now)
              db.expected_runs (ap_mem e m) in
          (a, old, chosen_or_same distinct row a listed old was_open own after)
    ]
  where
    ap_mem :
        {o : Option ExpectedRun}
        → slot_for_start org job_id ts db ≡ o
        → Mem b
            (attach_to org exec_id
              (attached_state status)
              now
              db
              (slot_for_start org job_id ts db)).1.expected_runs
        → Mem b (attach_to org exec_id (attached_state status) now db o).1.expected_runs
    ap_mem e m =
        subst (λ o. Mem b (attach_to org exec_id (attached_state status) now db o).1.expected_runs)
          e m

pub slot_for_start-Mem :
    (org job_id : Uuid) (ts : ℕ) (db : Db) (row : ExpectedRun)
    → slot_for_start org job_id ts db ≡ some row
    → Mem row db.expected_runs
slot_for_start-Mem org job_id ts db row h = (chosen_open org job_id ts db row h).0
