-- ===== src/Samples/Tables.antt =====
-- States, failures and bound slots of a small set of tables.
use mathlib.Core.Option
use jobwatch.Prelude.{
  ℕ, ◌<◌, ◌≡◌, ◌≢◌, ◌⊎◌, inl, inr, refl, sym, ap, ◌∙◌, subst, true, some, [], ◌∷◌, map, arith, Mem,
  head, Mem-cases,
}
use jobwatch.Status.{JobState, SlotState}
use jobwatch.Schedule.{pick_slot}
use jobwatch.Db.{given, ExecStatus, ExpectedRun, Execution}
use jobwatch.JobState.{compute, failures_since_success, is_success}
use jobwatch.JobState.Outcomes.{IsOpenFailure, open_failure-seen}
use jobwatch.Attach.{slot_for_start, attach_slot}
use jobwatch.Attach.Choice.{slot_of, open_runs, slot_for_start-eq-pick_slot, HasUniqueRuns}
use jobwatch.Samples.{backup, slot_row, failed_run, tables}

no_success : (d : Execution) → Mem d (failed_run ∷ []) → is_success d.status ≡ true → ⊥
no_success d m h = elim (Mem-cases m) [
  | inl e ↦
      let q : is_success failed_run.status ≡ true =
        subst (λ (x : Execution). is_success x.status ≡ true) e h in
      cc
  | inr m' ↦ elim m' [ ]
]

failed_run-IsOpenFailure : IsOpenFailure tables 1 failed_run
failed_run-IsOpenFailure = record {
  listed = head;
  own = refl;
  bad = refl;
  unanswered = λ d m own good. absurd (no_success d m good);
}

open_failure-seen_example :
    (0 < (compute tables backup 20000000).fails)
    × ((compute tables backup 20000000).state ≢ JobState.ok)
open_failure-seen_example =
    open_failure-seen tables backup 20000000 failed_run failed_run-IsOpenFailure

one_failure : 0 < (compute tables backup 20000000).fails
unfolding compute failures_since_success
one_failure = omega arith

slot_for_start-eq-pick_slot_example :
    Option.map slot_of (slot_for_start 7 1 3610000000 tables)
    ≡ pick_slot (map slot_of (open_runs 7 1 tables)) 3610000000
slot_for_start-eq-pick_slot_example = slot_for_start-eq-pick_slot 7 1 3610000000 tables

row_of :
    (a : ExpectedRun)
    → Mem a tables.expected_runs
    → (a ≡ slot_row 1 SlotState.pending) ⊎ (a ≡ slot_row 2 SlotState.pending)
row_of a m = elim (Mem-cases m) [
  | inl e ↦ inl e
  | inr m' ↦ elim (Mem-cases m') [ inl e ↦ inr e | inr m'' ↦ elim m'' [ ] ]
]

tables-HasUniqueRuns : HasUniqueRuns tables
tables-HasUniqueRuns = record {
  unique = λ a b m n e. elim (row_of a m) [
    | inl p ↦ elim (row_of b n) [
      | inl q ↦ p ∙ sym q
      | inr q ↦ absurd (one_two (sym (id_eq p) ∙ e ∙ id_eq q))
    ]
    | inr p ↦ elim (row_of b n) [
      | inl q ↦ absurd (one_two (sym (id_eq q) ∙ sym e ∙ id_eq p))
      | inr q ↦ p ∙ sym q
    ]
  ];
}
  where
    id_eq : {a b : ExpectedRun} → a ≡ b → a.id ≡ b.id
    id_eq h = ap (λ (r : ExpectedRun). r.id) h

    one_two : ◌≡◌ {A = ℕ} 1 2 → ⊥
    one_two h = omega arith

abbrev pub bound_row : ExpectedRun
bound_row = record (slot_row 1 SlotState.pending) {
  state = SlotState.failed;
  execution_id = some (given 5);
  matched_at = some 3620000000;
  settled_at = some 3620000000;
}

after-bound :
    Mem bound_row
      (attach_slot 7 1 3610000000 (given 5) ExecStatus.failed 3620000000 tables).1.expected_runs
unfolding attach_slot slot_for_start
after-bound = head
