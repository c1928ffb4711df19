-- ===== src/Generator/Selects.antt =====
-- Which jobs schedule_generator.py selects.
use jobwatch.Prelude.{
  ℕ, zero, suc, ◌<◌, ◌≡◌, inl, inr, refl, true, false, List, [], ◌∷◌, arith, Bool-cases, List-cases,
  Mem, head, tail, Mem-cases, take, keep_if, keep_if-Mem, Mem-keep_if,
}
use jobwatch.Db.{Job, Db}
use jobwatch.Generator.{is_due, insert_oldest, oldest_first, goes_after, select_jobs}

-- The selection.
Mem-insert_oldest :
    (j : Job) (ks : List Job) {k : Job} → Mem k (insert_oldest j ks) → Mem k (j ∷ ks)
unfolding insert_oldest
Mem-insert_oldest j [] m = m
Mem-insert_oldest j (x ∷ ks) m =
    elim (Bool-cases (goes_after j.generated_through x.generated_through)) [
      | inl t ↦ elim (Mem-cases (rw t at m)) [
        | inl e ↦ rw e (tail head)
        | inr m' ↦ elim (Mem-cases (Mem-insert_oldest j ks m')) [
          | inl e ↦ rw e head
          | inr n ↦ tail (tail n)
        ]
      ]
      | inr f ↦ (rw f at m)
    ]

Mem-oldest_first : (js : List Job) {k : Job} → Mem k (oldest_first js) → Mem k js
unfolding oldest_first
Mem-oldest_first [] m = m
Mem-oldest_first (j ∷ js) m = elim (Mem-cases (Mem-insert_oldest j (oldest_first js) m)) [
  | inl e ↦ rw e head
  | inr n ↦ tail (Mem-oldest_first js n)
]

Mem-take : (n : ℕ) (js : List Job) {k : Job} → Mem k (take n js) → Mem k js
Mem-take zero js m = elim m [ ]
Mem-take (suc n) [] m = m
Mem-take (suc n) (j ∷ js) m = elim (Mem-cases m) [
  | inl e ↦ rw e head
  | inr later ↦ tail (Mem-take n js later)
]

pub select_jobs-Mem :
    (limit now : ℕ) (db : Db) {k : Job}
    → Mem k (select_jobs limit now db)
    → Mem k db.jobs × (is_due now k ≡ true)
unfolding select_jobs
select_jobs-Mem limit now db m = Mem-keep_if (is_due now) db.jobs (
    Mem-oldest_first (keep_if (is_due now) db.jobs)
      (Mem-take limit (oldest_first (keep_if (is_due now) db.jobs)) m))

oldest_first-nonempty :
    (js : List Job) {k : Job}
    → Mem k js
    → (j : Job) × (rest : List Job) × (oldest_first js ≡ j ∷ rest)
unfolding oldest_first insert_oldest
oldest_first-nonempty [] m = elim m [ ]
oldest_first-nonempty (j ∷ js) m = elim (List-cases (oldest_first js)) [
  | inl e ↦ (j, [], rw e refl)
  | inr (x, rest, e) ↦ elim (Bool-cases (goes_after j.generated_through x.generated_through)) [
    | inl t ↦ (x, insert_oldest j rest, rw e (rw t refl))
    | inr f ↦ (j, x ∷ rest, rw e (rw f refl))
  ]
]

pub select_jobs_none :
    (limit now : ℕ) (db : Db) (k : Job)
    → 0 < limit
    → select_jobs limit now db ≡ []
    → Mem k db.jobs
    → is_due now k ≡ false
unfolding select_jobs
select_jobs_none zero now db k pos h m = absurd (omega arith)
select_jobs_none (suc n) now db k pos h m = elim (Bool-cases (is_due now k)) [
  | inl t ↦
      let (j, rest, e) =
        oldest_first-nonempty (keep_if (is_due now) db.jobs)
          (keep_if-Mem (is_due now) db.jobs m t) in
      absurd (let q = rw e at h in cc)
  | inr f ↦ f
]
