-- ===== src/Reconciler/Missed.antt =====
-- The executions that reconciler.py writes for the slots that it marks as missed.
use jobwatch.Prelude.{
  ℕ, ◌≡◌, inl, inr, Bool, true, List, [], ◌∷◌, ◌++◌, arith, Bool-cases, Mem, head, tail, any_of,
  keep_if, keep_if-Mem, Mem-append_last,
}
use jobwatch.Db.{ExpectedRun, Execution, Db}
use jobwatch.Reconciler.{
  to_miss, missed_row, same_key, insert_execution, insert_missed, mark_missed,
}

any_of-Mem :
    (p : Execution → Bool) (es : List Execution)
    → any_of p es ≡ true
    → (e : Execution) × Mem e es × (p e ≡ true)
any_of-Mem p [] h = cc
any_of-Mem p (x ∷ xs) h = elim (Bool-cases (p x)) [
  | inl t ↦ (x, head, t)
  | inr n ↦ let (e, m, t) = any_of-Mem p xs (rw n at h) in (e, tail m, t)
]

append-Mem : (xs ys : List Execution) {e : Execution} → Mem e xs → Mem e (xs ++ ys)
append-Mem [] ys m = elim m [ ]
append-Mem (x ∷ xs) ys head = head
append-Mem (x ∷ xs) ys (tail m) = tail (append-Mem xs ys m)

insert_execution-keeps :
    (a : Execution) (es : List Execution) {e : Execution} → Mem e es → Mem e (insert_execution a es)
unfolding insert_execution
insert_execution-keeps a es m = elim (Bool-cases (any_of (λ d. same_key d a) es)) [
  | inl t ↦ rw t m
  | inr n ↦ rw n (append-Mem es (a ∷ []) m)
]

insert_missed-keeps :
    (now : ℕ) (rs : List ExpectedRun) (es : List Execution) {e : Execution}
    → Mem e es
    → Mem e (insert_missed now rs es)
unfolding insert_missed
insert_missed-keeps now [] es m = m
insert_missed-keeps now (r ∷ rs) es m =
    insert_missed-keeps now rs (insert_execution (missed_row now r) es)
      (insert_execution-keeps (missed_row now r) es m)

same_key_self : (now : ℕ) (r : ExpectedRun) → same_key (missed_row now r) (missed_row now r) ≡ true
same_key_self now r = ground arith

insert_execution-key :
    (now : ℕ) (r : ExpectedRun) (es : List Execution)
    → (e : Execution) × Mem e (insert_execution (missed_row now r) es)
      × (same_key e (missed_row now r) ≡ true)
unfolding insert_execution
insert_execution-key now r es = elim (Bool-cases (any_of (λ d. same_key d (missed_row now r)) es)) [
  | inl t ↦ rw t (any_of-Mem (λ d. same_key d (missed_row now r)) es t)
  | inr n ↦ rw n (missed_row now r, Mem-append_last es (missed_row now r), same_key_self now r)
]

insert_missed-key :
    (now : ℕ) (rs : List ExpectedRun) (es : List Execution) {r : ExpectedRun}
    → Mem r rs
    → (e : Execution) × Mem e (insert_missed now rs es) × (same_key e (missed_row now r) ≡ true)
unfolding insert_missed
insert_missed-key now [] es m = elim m [ ]
insert_missed-key now (r ∷ rs) es head =
    let (e, m, k) = insert_execution-key now r es in
    (e, insert_missed-keeps now rs (insert_execution (missed_row now r) es) m, k)
insert_missed-key now (x ∷ rs) es (tail m) =
    insert_missed-key now rs (insert_execution (missed_row now x) es) m

-- Every slot that the statement settles as missed has an execution under the key of its job, its epoch
-- second and its instant, and no execution that was there before is lost or changed.
pub mark_missed-history :
    (now : ℕ) (db : Db)
    → ((r : ExpectedRun)
        → Mem r db.expected_runs
        → to_miss now r ≡ true
        → (e : Execution) × Mem e (mark_missed now db).executions
          × (same_key e (missed_row now r) ≡ true))
      × ((e : Execution) → Mem e db.executions → Mem e (mark_missed now db).executions)
unfolding mark_missed
mark_missed-history now db = (
  λ r m t.
      insert_missed-key now (keep_if (to_miss now) db.expected_runs) db.executions
        (keep_if-Mem (to_miss now) db.expected_runs m t),
  λ e m. insert_missed-keeps now (keep_if (to_miss now) db.expected_runs) db.executions m,
)
