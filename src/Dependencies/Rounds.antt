-- ===== src/Dependencies/Rounds.antt =====
-- The rounds of the recursive query of routers/topology.py: they end, and find exactly what is reached.
use jobwatch.Prelude.{
  ℕ, zero, suc, ◌≤◌, ◌<◌, ◌≡◌, ◌↔◌, refl, subst, Bool, true, false, not, ◌⊎◌, inl, inr, List, [],
  ◌∷◌, ◌++◌, Mem, head, Mem-append, Mem-append_left, Mem-append_right, Mem-elem, elem-Mem, elem,
  count_where, count_where-lt, length, Bool-cases, arith,
}
use jobwatch.Db.{Uuid}
use jobwatch.Dependencies.{
  Dependency, upstream, fresh, all_upstream, is_last_round, up_rounds, up, would_cycle,
}
use jobwatch.Dependencies.Reach.{
  Reaches, direct, via, Reaches-trans, Mem-upstream, upstream-Mem, fresh-Mem, Mem-fresh, fresh-new,
  Mem-all_upstream, all_upstream-Mem,
}

Reaches-upstream :
    (deps : List Dependency) (a j x : Uuid)
    → Reaches deps a j
    → Mem x (upstream deps j)
    → Reaches deps a x
Reaches-upstream deps a j x r u =
    let (d, m, e, f) = Mem-upstream deps j x u in Reaches-trans r (direct d m e f)

module _ (deps : List Dependency) (a : Uuid) where
  up_rounds_sound :
      (fuel : ℕ) (result work : List Uuid)
      → ((x : Uuid) → Mem x result → Reaches deps a x)
      → ((x : Uuid) → Mem x work → Reaches deps a x)
      → (x : Uuid) → Mem x (up_rounds fuel deps result work)
      → Reaches deps a x
  unfolding up_rounds
  up_rounds_sound zero result work r w x m = r x m
  up_rounds_sound (suc fuel) result work r w x m =
      let new = fresh result (all_upstream deps work) in
      let reached = λ (y : Uuid) (n : Mem y new).
        let (j, at_work, u) =
          Mem-all_upstream deps work y (fresh-Mem result (all_upstream deps work) n) in
        Reaches-upstream deps a j y (w j at_work) u in
      let both = λ (y : Uuid) (n : Mem y (result ++ new)).
        elim (Mem-append result new n) as (λ _. Reaches deps a y) [
          | inl l ↦ r y l
          | inr k ↦ reached y k
        ] in
      elim (Bool-cases (is_last_round new)) [
        | inl done ↦ r x (rw done at m)
        | inr more ↦ up_rounds_sound fuel (result ++ new) new both reached x (rw more at m)
      ]

-- How many rows lead to a job that is not in the result.
abbrev unseen : List Dependency → List Uuid → ℕ
unseen deps result = count_where (λ (d : Dependency). not (elem d.depends_on_job_id result)) deps

-- Of each job in the result, the next ones are in it too, or the job is still to be worked on.
abbrev IsOpen : List Dependency → List Uuid → List Uuid → Type 0
IsOpen deps result work =
    (x : Uuid) → Mem x result → Mem x work ⊎ ((y : Uuid) → Mem y (upstream deps x) → Mem y result)

empty-none : (xs : List Uuid) (x : Uuid) → is_last_round xs ≡ true → ¬ Mem x xs
empty-none [] x e m = elim m [ ]
empty-none (y ∷ ys) x e m = cc

nonempty-some : (xs : List Uuid) → is_last_round xs ≡ false → (x : Uuid) × Mem x xs
nonempty-some [] e = cc
nonempty-some (y ∷ ys) e = (y, head)

elem-append : (x : Uuid) (xs ys : List Uuid) → elem x xs ≡ true → elem x (xs ++ ys) ≡ true
elem-append x xs ys h = Mem-elem (Mem-append_left ys (elem-Mem x xs h))

not-elem-append :
    (x : Uuid) (xs ys : List Uuid) → not (elem x (xs ++ ys)) ≡ true → not (elem x xs) ≡ true
not-elem-append x xs ys h = elim (Bool-cases (elem x xs)) [
  | inl t ↦ cc (rw (elem-append x xs ys t) at h)
  | inr f ↦ rw f refl
]

module _ (deps : List Dependency) (result work : List Uuid) where
  abbrev round : List Uuid
  round = fresh result (all_upstream deps work)

  -- A round that brings something leaves fewer rows unseen.
  unseen-round : is_last_round round ≡ false → unseen deps (result ++ round) < unseen deps result
  unseen-round more =
      let (x, new) = nonempty-some round more in
      let (j, at_work, u) =
        Mem-all_upstream deps work x (fresh-Mem result (all_upstream deps work) new) in
      let (d, m, e, f) = Mem-upstream deps j x u in
      count_where-lt (λ (d : Dependency). not (elem d.depends_on_job_id result))
        (λ (d : Dependency). not (elem d.depends_on_job_id (result ++ round))) deps
        (λ k. not-elem-append k.depends_on_job_id result round) m
        (rw (f, fresh-new result (all_upstream deps work) x new) refl)
        (rw (f, Mem-elem (Mem-append_right result new)) refl)

  -- What was worked on is closed, and what is new is to be worked on.
  IsOpen-round : IsOpen deps result work → IsOpen deps (result ++ round) round
  IsOpen-round open_ x m = elim (Mem-append result round m) [
    | inr new ↦ inl new
    | inl old ↦ elim (open_ x old) [
      | inr closed ↦ inr (λ y u. Mem-append_left round (closed y u))
      | inl at_work ↦ inr (λ y u.
          elim (Mem-fresh result (all_upstream deps work)
              (all_upstream-Mem deps work x y at_work u))
            as (λ _. Mem y (result ++ round)) [
              | inl seen ↦ Mem-append_left round seen
              | inr new ↦ Mem-append_right result new
            ])
    ]
  ]

  IsOpen-done : IsOpen deps result work → is_last_round round ≡ true → IsOpen deps result []
  IsOpen-done open_ done x m = elim (IsOpen-round open_ x (Mem-append_left round m)) [
    | inl new ↦ absurd (empty-none round x done new)
    | inr closed ↦ inr (λ y u. elim (Mem-append result round (closed y u)) as (λ _. Mem y result) [
      | inl l ↦ l
      | inr r ↦ absurd (empty-none round y done r)
    ])
  ]

up_rounds_keeps :
    (fuel : ℕ) (deps : List Dependency) (result work : List Uuid) (x : Uuid)
    → Mem x result
    → Mem x (up_rounds fuel deps result work)
unfolding up_rounds
up_rounds_keeps zero deps result work x m = m
up_rounds_keeps (suc fuel) deps result work x m =
    let new = fresh result (all_upstream deps work) in
    elim (Bool-cases (is_last_round new)) [
      | inl done ↦ rw done m
      | inr more ↦ rw more (up_rounds_keeps fuel deps (result ++ new) new x (Mem-append_left new m))
    ]

up_rounds_closed :
    (fuel : ℕ) (deps : List Dependency) (result work : List Uuid)
    → unseen deps result < fuel
    → IsOpen deps result work
    → IsOpen deps (up_rounds fuel deps result work) []
unfolding up_rounds
up_rounds_closed zero deps result work enough open_ = absurd (omega arith)
up_rounds_closed (suc fuel) deps result work enough open_ =
    let new = round deps result work in
    elim (Bool-cases (is_last_round new)) [
      | inl done ↦ rw done (IsOpen-done deps result work open_ done)
      | inr more ↦ rw more (
          up_rounds_closed fuel deps (result ++ new) new
            (omega (arith, unseen-round deps result work more))
            (IsOpen-round deps result work open_))
    ]

count_where-le : (p : Dependency → Bool) (xs : List Dependency) → count_where p xs ≤ length xs
count_where-le p [] = omega arith
count_where-le p (x ∷ xs) = let ih = count_where-le p xs in ground arith

-- The job at the end of a row is the next one of the job at its start.
at_next :
    (deps : List Dependency) (d : Dependency) (a b : Uuid)
    → Mem d deps
    → d.job_id ≡ a
    → d.depends_on_job_id ≡ b
    → Mem b (upstream deps a)
at_next deps d a b m e f =
    subst (λ j. Mem b (upstream deps j)) e
      (subst (λ z. Mem z (upstream deps d.job_id)) f (upstream-Mem deps d m))

closed-Reaches :
    (deps : List Dependency) (found : List Uuid) {x y : Uuid}
    → IsOpen deps found []
    → Mem x found
    → Reaches deps x y
    → Mem y found
closed-Reaches deps found {x} {y} closed m (direct d at_d e f) = elim (closed x m) [
  | inl none_left ↦ elim none_left [ ]
  | inr next ↦ next y (at_next deps d x y at_d e f)
]
closed-Reaches deps found {x} closed m (via d at_d e r) = elim (closed x m) [
  | inl none_left ↦ elim none_left [ ]
  | inr next ↦
      closed-Reaches deps found closed
        (next d.depends_on_job_id (at_next deps d x d.depends_on_job_id at_d e refl)) r
]

module _ (deps : List Dependency) (job : Uuid) where
  abbrev first : List Uuid
  first = fresh [] (upstream deps job)

  abbrev found_jobs : List Uuid
  found_jobs = up_rounds (suc (length deps)) deps first first

  found-closed : IsOpen deps found_jobs []
  found-closed =
      up_rounds_closed (suc (length deps)) deps first first
        (omega
          (arith, count_where-le (λ (d : Dependency). not (elem d.depends_on_job_id first)) deps))
        (λ x m. inl m)

  upstream-found : (x : Uuid) → Mem x (upstream deps job) → Mem x found_jobs
  upstream-found x u = elim (Mem-fresh [] (upstream deps job) u) [
    | inl seen ↦ elim seen [ ]
    | inr new ↦ up_rounds_keeps (suc (length deps)) deps first first x new
  ]

  Reaches-found : {x : Uuid} → Reaches deps job x → Mem x found_jobs
  Reaches-found {x} (direct d m e f) = upstream-found x (at_next deps d job x m e f)
  Reaches-found (via d m e r) =
      closed-Reaches deps found_jobs found-closed
        (upstream-found d.depends_on_job_id (at_next deps d job d.depends_on_job_id m e refl)) r

  found-Reaches : (x : Uuid) → Mem x found_jobs → Reaches deps job x
  found-Reaches =
      let start = λ (y : Uuid) (n : Mem y first).
        let (d, m, e, f) = Mem-upstream deps job y (fresh-Mem [] (upstream deps job) n) in
        direct d m e f in
      up_rounds_sound deps job (suc (length deps)) first first start start

-- The query for a cycle answers exactly when the second job depends on the first, at once or through others,
-- however long the chain and whatever cycles the table has.
pub would_cycle_iff :
    (deps : List Dependency) (job depends_on : Uuid)
    → (would_cycle deps job depends_on ≡ true) ↔ Reaches deps depends_on job
unfolding would_cycle up
would_cycle_iff deps job depends_on = (
  (λ h. found-Reaches deps depends_on job (elem-Mem job (found_jobs deps depends_on) h)),
  (λ r. Mem-elem (Reaches-found deps depends_on r)),
)
