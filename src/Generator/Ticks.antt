-- ===== src/Generator/Ticks.antt =====
-- The loops of schedule_generator.py: every batch gets ahead, and a tick comes to an end.
use jobwatch.Prelude.{
  any_of-left, none, ℕ, zero, suc, ◌+◌, ◌≤◌, ◌<◌, ◌≡◌, ◌⊎◌, inl, inr, refl, sym, subst, Bool, true,
  false, ◌&&◌, not, some, List, [], ◌∷◌, map, arith, Bool-cases, List-cases, All, All-Mem,
  All-append, any_of, Mem, head, tail, find_first, find_first-holds, Option-cases, length, leb,
  ◌==◌, is_some, count_where,
}
use jobwatch.Db.{Uuid, Job, Db}
use jobwatch.Schedule.{Cron, horizon, generation_window}
use jobwatch.Generator.{
  Batch, refresh_margin, is_before, is_due, select_jobs, slot_budget, fill, add_job, advance,
  advance_to, batch_of, run_jobs, run_batch, tick,
}
use jobwatch.Generator.Selects.{select_jobs-Mem, select_jobs_none}

-- Not ahead by a whole horizon of `base`.
unfoldable pub is_stale : ℕ → Job → Bool
is_stale base j =
    not j.paused && (is_some j.schedule_expr && is_before j.generated_through (base + horizon))

due-is_stale :
    (base now : ℕ) (j : Job)
    → now ≤ base + refresh_margin
    → is_due now j ≡ true
    → is_stale base j ≡ true
unfolding is_due is_stale
due-is_stale base now j le h = ground arith

busy : (n : ℕ) → (suc n == 0) ≡ false
busy n = ground arith

-- What a batch leaves in `generated_through`.
module _ (cron : Cron) (now : ℕ) where
  abbrev EndsAt : List (Uuid × ℕ) → Type 0
  EndsAt ends = All (λ v. v.1 ≡ now + horizon) ends

  window_end-eq :
      (j : Job) → (generation_window j.generated_through j.created_at now).1 ≡ now + horizon
  unfolding generation_window
  window_end-eq j = refl

  fill-ends : (js : List Job) (b : Batch) → EndsAt b.ends → EndsAt (fill cron now js b).ends
  unfolding fill
  fill-ends [] b h = h
  fill-ends (j ∷ js) b h = elim (Bool-cases (leb slot_budget (length b.cols))) [
    | inl full ↦ rw full h
    | inr room ↦ rw room (
        fill-ends js (add_job cron now j b)
          (All-append (λ (v : Uuid × ℕ). v.1 ≡ now + horizon) b.ends _ h (window_end-eq j, tt)))
  ]

  fill-has :
      (q : Uuid × ℕ → Bool) (js : List Job) (b : Batch)
      → any_of q b.ends ≡ true
      → any_of q (fill cron now js b).ends ≡ true
  unfolding fill generation_window
  fill-has q [] b h = h
  fill-has q (j ∷ js) b h = elim (Bool-cases (leb slot_budget (length b.cols))) [
    | inl full ↦ rw full h
    | inr room ↦
        rw room (
          fill-has q js (add_job cron now j b)
            (any_of-left q b.ends ((j.id, now + horizon) ∷ []) h))
  ]

  -- The first job is always within the budget.
  first-ends :
      (j : Job) (js : List Job)
      → any_of (λ (v : Uuid × ℕ). v.0 == j.id) (batch_of cron now (j ∷ js)).ends ≡ true
  unfolding fill
  first-ends j js =
      fill-has (λ (v : Uuid × ℕ). v.0 == j.id) js
        (add_job cron now j (record { cols = []; ends = [] })) (ground arith)

  advance_to-is_stale :
      (base : ℕ) (ends : List (Uuid × ℕ)) (k : Job)
      → base ≤ now
      → EndsAt ends
      → (advance_to (find_first (λ v. v.0 == k.id) ends) k ≡ k)
        ⊎ (is_stale base (advance_to (find_first (λ v. v.0 == k.id) ends) k) ≡ false)
  unfolding is_stale
  advance_to-is_stale base ends k le h =
      elim (Option-cases (find_first (λ (v : Uuid × ℕ). v.0 == k.id) ends)) [
        | inl e ↦ inl (rw e refl)
        | inr (v, e) ↦
            let ends_at =
              All-Mem (λ (w : Uuid × ℕ). w.1 ≡ now + horizon) h
                (find_first-holds (λ (w : Uuid × ℕ). w.0 == k.id) ends e).1 in
            inr (rw e (ground arith))
      ]

any_of-find_first :
    (q : Uuid × ℕ → Bool) (xs : List (Uuid × ℕ))
    → any_of q xs ≡ true
    → (v : Uuid × ℕ) × (find_first q xs ≡ some v)
any_of-find_first q [] h = cc
any_of-find_first q (x ∷ xs) h = elim (Bool-cases (q x)) [
  | inl t ↦ (x, rw t refl)
  | inr f ↦ let (v, e) = any_of-find_first q xs (rw f at h) in (v, rw f e)
]

first-is_stale :
    (cron : Cron) (now base : ℕ) (j : Job) (js : List Job)
    → base ≤ now
    → is_stale base (
        advance_to (find_first (λ (v : Uuid × ℕ). v.0 == j.id) (batch_of cron now (j ∷ js)).ends) j)
      ≡ false
unfolding is_stale
first-is_stale cron now base j js le =
    let ends = (batch_of cron now (j ∷ js)).ends in
    let (v, e) =
      any_of-find_first (λ (v : Uuid × ℕ). v.0 == j.id) ends (first-ends cron now j js) in
    let ends_at =
      All-Mem (λ (w : Uuid × ℕ). w.1 ≡ now + horizon)
        (fill-ends cron now (j ∷ js) (record { cols = []; ends = [] }) tt)
        (find_first-holds (λ (w : Uuid × ℕ). w.0 == j.id) ends e).1 in
    rw e (ground arith)

-- Fewer rows pass, where none comes to pass and one ceases to.
count_where-map_le :
    (p : Job → Bool) (f : Job → Job) (xs : List Job)
    → ((x : Job) → p (f x) ≡ true → p x ≡ true)
    → count_where p (map f xs) ≤ count_where p xs
count_where-map_le p f [] h = omega arith
count_where-map_le p f (x ∷ xs) h = elim (Bool-cases (p (f x))) [
  | inl t ↦ rw (t, h x t) (omega (arith, count_where-map_le p f xs h))
  | inr n ↦ elim (Bool-cases (p x)) [
    | inl t ↦ rw (n, t) (omega (arith, count_where-map_le p f xs h))
    | inr m ↦ rw (n, m) (count_where-map_le p f xs h)
  ]
]

count_where-map_lt :
    (p : Job → Bool) (f : Job → Job) {j : Job} {xs : List Job}
    → ((x : Job) → p (f x) ≡ true → p x ≡ true)
    → Mem j xs
    → p j ≡ true
    → p (f j) ≡ false
    → count_where p (map f xs) < count_where p xs
count_where-map_lt p f {xs = []} h m t n = elim m [ ]
count_where-map_lt p f {xs = j ∷ xs} h head t n =
    rw (n, t) (omega (arith, count_where-map_le p f xs h))
count_where-map_lt p f {xs = x ∷ xs} h (tail m) t n = elim (Bool-cases (p (f x))) [
  | inl u ↦ rw (u, h x u) (omega (arith, count_where-map_lt p f h m t n))
  | inr u ↦ elim (Bool-cases (p x)) [
    | inl v ↦ rw (u, v) (omega (arith, count_where-map_lt p f h m t n))
    | inr v ↦ rw (u, v) (count_where-map_lt p f h m t n)
  ]
]

module _ (cron : Cron) (limit base : ℕ) where
  -- A batch that takes a job leaves fewer jobs to refresh.
  run_jobs-fewer :
      (now : ℕ) (db : Db) (j : Job) (js : List Job)
      → base ≤ now
      → Mem j db.jobs
      → is_stale base j ≡ true
      → count_where (is_stale base) (run_jobs cron now db (j ∷ js)).db.jobs
        < count_where (is_stale base) db.jobs
  unfolding advance
  run_jobs-fewer now db j js le m stale =
      let ends = (batch_of cron now (j ∷ js)).ends in
      count_where-map_lt (is_stale base)
        (λ k. advance_to (find_first (λ (v : Uuid × ℕ). v.0 == k.id) ends) k)
        (λ k t.
          elim (advance_to-is_stale cron now base ends k le
            (fill-ends cron now (j ∷ js) (record { cols = []; ends = [] }) tt)) [
              | inl same ↦ subst (λ i. is_stale base i ≡ true) same t
              | inr fresh ↦ absurd (ground arith)
            ])
        m stale (first-is_stale cron now base j js le)

  -- A tick ends, in one batch more than there are jobs to refresh at most, when the readings of the clock in it are within
  -- the refresh margin: it makes n + 1 batches, for which that much fuel is enough and less is not, and no job is due at
  -- the reading of the last one, `clock n`.
  pub tick_terminates :
      (fuel : ℕ) (clock : ℕ → ℕ) (total : ℕ) (db : Db)
      → 0 < limit
      → ((n : ℕ) → (base ≤ clock n) × (clock n ≤ base + refresh_margin))
      → count_where (is_stale base) db.jobs < fuel
      → (after : Db) × (slots : ℕ) × (n : ℕ) × (tick cron fuel limit clock total db
          ≡ some (after, slots))
        × (tick cron (suc n) limit clock total db ≡ some (after, slots))
        × (tick cron n limit clock total db ≡ none)
        × (n ≤ count_where (is_stale base) db.jobs)
        × ((k : Job) → Mem k after.jobs → is_due (clock n) k ≡ false)
  unfolding tick run_batch
  tick_terminates zero clock total db pos near enough = absurd (omega arith)
  tick_terminates (suc fuel) clock total db pos near enough =
      elim (List-cases (select_jobs limit (clock 0) db)) [
        | inl e ↦ (
          db,
          total + 0,
          0,
          rw e refl,
          rw e refl,
          refl,
          omega arith,
          λ k m. select_jobs_none limit (clock 0) db k pos e m,
        )
        | inr (j, js, e) ↦
            let (m, due) = select_jobs-Mem limit (clock 0) db (subst (λ l. Mem j l) (sym e) head) in
            let stale = due-is_stale base (clock 0) j (near 0).1 due in
            let p = run_jobs cron (clock 0) db (j ∷ js) in
            let fewer = run_jobs-fewer (clock 0) db j js (near 0).0 m stale in
            let (after, slots, n, done, made, short, le, idle) =
              tick_terminates fuel (λ n. clock (suc n)) (total + p.inserted) p.db pos
                (λ n. near (suc n)) (omega arith) in
            (
              after,
              slots,
              suc n,
              rw e (rw (busy (length js)) done),
              rw e (rw (busy (length js)) made),
              rw e (rw (busy (length js)) short),
              omega arith,
              idle,
            )
      ]
