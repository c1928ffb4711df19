-- ===== src/JobState/Outcomes.antt =====
-- Which execution decides a job's state in job_state.py, and how the failure count goes with it.
use jobwatch.Prelude.{
  ℕ, ◌≤◌, ◌<◌, ◌≡◌, ◌≢◌, ◌⊎◌, inl, inr, sym, subst, Bool, true, ◌&&◌, some, List, [], ◌∷◌, arith,
  map, Option-cases, List-cases, Mem, head, map-Mem, keep_if, keep_if-Mem, Mem-keep_if,
  sort_desc-top, sort_desc-Mem, Mem-sort_desc, maximum, maximum-ge, maximum-none, pos-count_where,
  Mem-map, maximum-Mem, count_where-pos, ◌==◌,
}
use jobwatch.Status.{JobState, derive, in_bad_slots, Facts}
use jobwatch.Db.{Uuid, ExecStatus, Execution, Job, Db, finished_at}
use jobwatch.JobState.{
  timeline, first_outcome, outcome, failures_since_success, is_success, is_failure, is_final,
  after_last, facts_of, compute,
}

-- A finished execution of the job.
pub record IsFinal (db : Db) (job_id : Uuid) (e : Execution) : Type 0 where
  pub listed : Mem e db.executions
  pub own : e.job_id ≡ job_id
  pub over : is_final e.status ≡ true

-- The execution that the job's state rests on: no finished one of the job ended later.
pub record IsLatest (db : Db) (job_id : Uuid) (e : Execution) : Type 0 where
  pub final : IsFinal db job_id e
  pub last : (d : Execution) → IsFinal db job_id d → finished_at d ≤ finished_at e

abbrev own_final : Uuid → Execution → Bool
own_final job_id e = e.job_id == job_id && is_final e.status

IsFinal-iff :
    (db : Db) (job_id : Uuid) (e : Execution)
    → own_final job_id e ≡ true
    → (e.job_id ≡ job_id) × (is_final e.status ≡ true)
IsFinal-iff db job_id e h = ground arith

IsFinal→test :
    (db : Db) (job_id : Uuid) (e : Execution) → IsFinal db job_id e → own_final job_id e ≡ true
IsFinal→test db job_id e h = ground arith

-- The head of the timeline is the latest finished execution.
pub timeline-IsLatest :
    (db : Db) (job_id : Uuid) (e : Execution) (rest : List Execution)
    → timeline db job_id ≡ e ∷ rest
    → IsLatest db job_id e
unfolding timeline
timeline-IsLatest db job_id e rest h =
    let kept = keep_if (own_final job_id) db.executions in
    let in_kept : Mem e kept =
      Mem-sort_desc finished_at e kept (subst (λ l. Mem e l) (sym h) head) in
    let (listed, passed) = Mem-keep_if (own_final job_id) db.executions in_kept in
    let (own, over) = IsFinal-iff db job_id e passed in
    record {
      final = record { listed = listed; own = own; over = over };
      last = λ d f.
          sort_desc-top finished_at kept e rest h d
            (keep_if-Mem (own_final job_id) db.executions f.listed (IsFinal→test db job_id d f));
    }

-- An empty timeline says that no execution of the job has finished.
timeline-nil :
    (db : Db) (job_id : Uuid) (e : Execution) → timeline db job_id ≡ [] → ¬ IsFinal db job_id e
unfolding timeline
timeline-nil db job_id e h f = nothing (
    subst (λ l. Mem e l) h
      (sort_desc-Mem finished_at e _
        (keep_if-Mem (own_final job_id) db.executions f.listed (IsFinal→test db job_id e f))))
  where
    nothing : ¬ Mem e []
    nothing m = elim m [ ]

bad_of_failure : (s : ExecStatus) → is_failure s ≡ true → in_bad_slots (outcome s) ≡ true
bad_of_failure s h = ground arith

-- A failure with no success of the job at its end or later.
pub record IsOpenFailure (db : Db) (job_id : Uuid) (e : Execution) : Type 0 where
  pub listed : Mem e db.executions
  pub own : e.job_id ≡ job_id
  pub bad : is_failure e.status ≡ true
  pub unanswered :
      (d : Execution)
      → Mem d db.executions
      → d.job_id ≡ job_id
      → is_success d.status ≡ true
      → finished_at d < finished_at e

open-IsFinal :
    {db : Db} {job_id : Uuid} {e : Execution} → IsOpenFailure db job_id e → IsFinal db job_id e
open-IsFinal o = record { listed = o.listed; own = o.own; over = ground (arith, o.bad) }

success_or_failure :
    (s : ExecStatus) → is_final s ≡ true → (is_success s ≡ true) ⊎ (is_failure s ≡ true)
success_or_failure s h = ground arith

-- The outcome that the state is derived from is bad while a failure is unanswered.
last_outcome_bad :
    (db : Db) (job_id : Uuid) (e : Execution)
    → IsOpenFailure db job_id e
    → in_bad_slots (first_outcome (timeline db job_id)) ≡ true
last_outcome_bad db job_id e o = elim (List-cases (timeline db job_id)) [
  | inl none_yet ↦ absurd (timeline-nil db job_id e none_yet (open-IsFinal o))
  | inr (h, rest, t) ↦
      let top = timeline-IsLatest db job_id h rest t in
      rw t (elim (success_or_failure h.status top.final.over) [
        | inr bad ↦ bad_of_failure h.status bad
        | inl good ↦ absurd (
            omega (
              arith,
              o.unanswered h top.final.listed top.final.own good,
              top.last e (open-IsFinal o),
            ))
      ])
]

derive-bad_not_ok : (f : Facts) → in_bad_slots f.last_settled ≡ true → (derive f).0 ≢ JobState.ok
unfolding derive
derive-bad_not_ok f h = ground arith

abbrev successes : Db → Uuid → List Execution
successes db job_id = keep_if (λ e. e.job_id == job_id && is_success e.status) db.executions

after_last-lt :
    (db : Db) (job_id : Uuid) (t : ℕ)
    → after_last (maximum (map finished_at (successes db job_id))) t ≡ true
    → (d : Execution) → Mem d db.executions
    → d.job_id ≡ job_id
    → is_success d.status ≡ true
    → finished_at d < t
after_last-lt db job_id t h d m own good =
    let inside : Mem d (successes db job_id) = keep_if-Mem _ db.executions m (ground arith) in
    let instant = map-Mem finished_at inside in
    elim (Option-cases (maximum (map finished_at (successes db job_id)))) [
      | inl e ↦ absurd (maximum-none _ _ e instant)
      | inr (last, e) ↦
          let le : finished_at d ≤ last = maximum-ge _ _ e instant in
          let lt : after_last (some last) t ≡ true = rw e at h in ground arith
    ]

-- A positive failure count stands for a failure that no success has answered.
failures_since_success-open :
    (db : Db) (job_id : Uuid)
    → 0 < failures_since_success db job_id
    → (e : Execution) × IsOpenFailure db job_id e
unfolding failures_since_success
failures_since_success-open db job_id h =
    let (e, m, t) = count_where-pos _ db.executions h in
    (
      e,
      record {
        listed = m;
        own = ground arith;
        bad = ground arith;
        unanswered = after_last-lt db job_id (finished_at e) (ground arith);
      },
    )

after_last_of :
    (db : Db) (job_id : Uuid) (e : Execution)
    → IsOpenFailure db job_id e
    → after_last (maximum (map finished_at (successes db job_id))) (finished_at e) ≡ true
after_last_of db job_id e o =
    elim (Option-cases (maximum (map finished_at (successes db job_id)))) [
      | inl none_yet ↦ rw none_yet
      | inr (last, m) ↦
          let (d, inside, at) = Mem-map finished_at (successes db job_id) (maximum-Mem _ m) in
          let (listed, passed) = Mem-keep_if _ db.executions inside in
          rw m (ground (arith, o.unanswered d listed (ground arith) (ground arith)))
    ]

-- Where a failure of the job is unanswered, the count is positive and the state is not ok.
pub open_failure-seen :
    (db : Db) (j : Job) (now : ℕ) (e : Execution)
    → IsOpenFailure db j.id e
    → (0 < (compute db j now).fails) × ((compute db j now).state ≢ JobState.ok)
unfolding compute facts_of failures_since_success
open_failure-seen db j now e o = (
  pos-count_where _ db.executions o.listed
      (ground (arith, o.own, o.bad, after_last_of db j.id e o)),
  derive-bad_not_ok (facts_of db j now) (last_outcome_bad db j.id e o),
)

-- The failure count and the state agree: a positive count always goes with a failure after the last
-- success, and so with a state that is not ok.
pub fails-not_ok :
    (db : Db) (j : Job) (now : ℕ)
    → 0 < (compute db j now).fails
    → ((e : Execution) × IsOpenFailure db j.id e) × ((compute db j now).state ≢ JobState.ok)
unfolding compute
fails-not_ok db j now h =
    let (e, o) = failures_since_success-open db j.id h in
    ((e, o), (open_failure-seen db j now e o).1)
