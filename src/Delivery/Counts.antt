-- ===== src/Delivery/Counts.antt =====
-- How outbound/deliver.py counts failures against a destination.
use mathlib.Core.Option
use jobwatch.Prelude.{
  ℕ, zero, suc, ◌+◌, ◌≤◌, ◌<◌, ◌≡◌, inl, inr, refl, ap, true, Option, none, some, List, arith,
  Bool-cases, ◌==◌, if◌then◌else◌, update_where, update_if, find_first, find_first-update_where,
  All, All-update_where,
}
use jobwatch.Db.{Uuid}
use jobwatch.Delivery.{
  Target, Outbox, max_attempts, auto_disable_after, record_try, reset, count_dead, conclude_try,
  try_target, find_target, post_to, is_final_try, deliver_signal, run_task,
}

-- A destination that is on has not yet reached the limit of failures.
abbrev pub IsLive : Target → Type 0
IsLive t = t.enabled ≡ true → t.consecutive_failures < auto_disable_after

count_dead-IsLive : (t : Target) → IsLive t → IsLive (count_dead t)
count_dead-IsLive t live on = ground arith

conclude_try-IsLive :
    (retries dest sid : ℕ) (reply : Option ℕ) (o : Outbox)
    → All IsLive o.targets
    → All IsLive (conclude_try retries dest sid reply o).1.targets
unfolding conclude_try
conclude_try-IsLive retries dest sid (some code) o h =
    All-update_where IsLive (λ (t : Target). t.id == dest) reset o.targets
      (λ t live on. omega arith) h
conclude_try-IsLive retries dest sid none o h = elim (Bool-cases (is_final_try retries)) [
  | inl t ↦ rw t (
      All-update_where IsLive (λ (t : Target). t.id == dest) count_dead o.targets count_dead-IsLive
        h)
  | inr n ↦ rw n h
]

try_target-IsLive :
    (retries org dest sid : ℕ) (reply : Option ℕ) (found : Option Target) (o : Outbox)
    → All IsLive o.targets
    → All IsLive (try_target retries org dest sid reply found o).1.targets
unfolding record_try
try_target-IsLive retries org dest sid reply none o h = h
try_target-IsLive retries org dest sid reply (some t) o h = elim (Bool-cases t.enabled) [
  | inl on ↦
      rw on
        (conclude_try-IsLive retries dest sid (post_to t.kind reply) (record_try org dest sid o) h)
  | inr off ↦ rw off h
]

-- The count of a destination, 0 where there is none.
abbrev pub count_in : Option Target → ℕ
count_in none = 0
count_in (some t) = t.consecutive_failures

unfoldable pub failures_of : Uuid → Outbox → ℕ
failures_of id o = count_in (find_first (λ (t : Target). t.id == id) o.targets)

count-updated :
    (id dest : ℕ) (f : Target → Target) (targets : List Target) (n : ℕ)
    → ((t : Target) → (f t).id ≡ t.id)
    → ((t : Target) → (f t).consecutive_failures ≤ t.consecutive_failures + n)
    → count_in
        (find_first (λ (t : Target). t.id == id) (update_where (λ t. t.id == dest) f targets))
      ≤ count_in (find_first (λ (t : Target). t.id == id) targets) + n
count-updated id dest f targets n keep bound =
    let e =
      find_first-update_where (λ (t : Target). t.id == id) (λ t. t.id == dest) f targets
        (λ t. ap (λ i. i == id) (keep t)) in
    rw e (at (find_first (λ (t : Target). t.id == id) targets))
  where
    at :
        (o : Option Target)
        → count_in (Option.map (update_if (λ t. t.id == dest) f) o) ≤ count_in o + n
    at none = omega arith
    at (some t) = elim (Bool-cases (t.id == dest)) [
      | inl b ↦ rw b (bound t)
      | inr b ↦ rw b (omega arith)
    ]

-- What one try may add to a count.
abbrev pub price : ℕ → ℕ
price retries = if is_final_try retries then 1 else 0

deliver-price :
    (retries org dest sid id : ℕ) (reply : Option ℕ) (o : Outbox)
    → failures_of id (deliver_signal retries org dest sid reply o).1
      ≤ failures_of id o + price retries
unfolding failures_of deliver_signal
deliver-price retries org dest sid id reply o = go (find_target org dest o)
  where
    concluded :
        (r : Option ℕ)
        → count_in (
            find_first
              (λ (t : Target). t.id == id)
              (conclude_try retries dest sid r (record_try org dest sid o)).1.targets)
          ≤ count_in (find_first (λ (t : Target). t.id == id) o.targets) + price retries
    concluded (some code) =
        unfold conclude_try record_try in
        count-updated id dest reset o.targets (price retries) (λ t. refl) (λ t. omega arith)
    concluded none = elim (Bool-cases (is_final_try retries)) [
      | inl t ↦
          unfold conclude_try record_try in
          rw t (count-updated id dest count_dead o.targets 1 (λ t. refl) (λ t. omega arith))
      | inr n ↦ unfold conclude_try record_try in rw n (omega arith)
    ]

    go :
        (found : Option Target)
        → count_in (
            find_first
              (λ (t : Target). t.id == id)
              (try_target retries org dest sid reply found o).1.targets)
          ≤ count_in (find_first (λ (t : Target). t.id == id) o.targets) + price retries
    go none = omega arith
    go (some t) = elim (Bool-cases t.enabled) [
      | inl on ↦ rw on (concluded (post_to t.kind reply))
      | inr off ↦ rw off (omega arith)
    ]

price_le : (retries : ℕ) → price retries ≤ 1
price_le retries = ground arith

price_early : (retries : ℕ) → retries < max_attempts → price retries ≡ 0
price_early retries h = ground arith

deliver-IsLive :
    (retries org dest sid : ℕ) (reply : Option ℕ) (o : Outbox)
    → All IsLive o.targets
    → All IsLive (deliver_signal retries org dest sid reply o).1.targets
unfolding deliver_signal
deliver-IsLive retries org dest sid reply o h =
    try_target-IsLive retries org dest sid reply (find_target org dest o) o h

-- All tries of one task together count at most once against any destination, and no destination that is on has
-- reached the limit of failures afterwards, if none had before.
pub run_task-counts :
    (room retries org dest sid id : ℕ) (replies : ℕ → Option ℕ) (o : Outbox)
    → room + retries ≡ max_attempts
    → All IsLive o.targets
    → All IsLive (run_task room retries org dest sid replies o).targets
      × (failures_of id (run_task room retries org dest sid replies o) ≤ failures_of id o + 1)
unfolding run_task
run_task-counts zero retries org dest sid id replies o total live = (
  deliver-IsLive retries org dest sid (replies retries) o live,
  omega (arith, deliver-price retries org dest sid id (replies retries) o, price_le retries),
)
run_task-counts (suc room) retries org dest sid id replies o total live =
    elim (Bool-cases (deliver_signal retries org dest sid (replies retries) o).0) [
      | inl raised ↦ rw raised (
          let after = (deliver_signal retries org dest sid (replies retries) o).1 in
          let (alive, counted) =
            run_task-counts room (suc retries) org dest sid id replies after (omega arith)
              (deliver-IsLive retries org dest sid (replies retries) o live) in
          (
            alive,
            omega (
              arith,
              counted,
              deliver-price retries org dest sid id (replies retries) o,
              price_early retries (omega arith),
            ),
          ))
      | inr done ↦ rw done (
        deliver-IsLive retries org dest sid (replies retries) o live,
        omega (arith, deliver-price retries org dest sid id (replies retries) o, price_le retries),
      )
    ]
