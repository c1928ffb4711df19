-- ===== src/Engine/Joins.antt =====
-- `attach` of alerting/correlation.py and the automatic resolution of alerting/engine.py keep a job in at most one
-- open incident, and identifiers unique.
use jobwatch.Prelude.{
  ℕ, suc, ◌+◌, ◌≤◌, ◌<◌, ◌≡◌, ◌≢◌, inl, inr, refl, sym, ap, ◌∙◌, subst, Bool, true, false, ◌&&◌,
  ◌||◌, List, [], ◌∷◌, ◌++◌, arith, Bool-cases, ◌==◌, elem, count_where, update_where, All,
  All-weaken, All-append, All-update_where,
}
use jobwatch.Db.{Uuid}
use jobwatch.Engine.{Signals, Incident, Alerts, is_open_for, attach, join_incident, add_job}
use jobwatch.Engine.Incidents.{HasFreshIds, HasOneEach}
use jobwatch.Engine.Handle.{auto_resolve, resolve}

pub elem-append_last : (x y : ℕ) (xs : List ℕ) → elem x (xs ++ (y ∷ [])) ≡ (elem x xs || y == x)
elem-append_last x y [] = ground arith
elem-append_last x y (z ∷ xs) = rw (elem-append_last x y xs) (ground arith)

elem-add_job :
    (other job : ℕ) (ids : List ℕ)
    → (job == other) ≡ false
    → elem other (add_job job ids) ≡ elem other ids
elem-add_job other job ids differ = elim (Bool-cases (elem job ids)) [
  | inl t ↦ rw t refl
  | inr n ↦ rw n (elem-append_last other job ids ∙ ground arith)
]

-- Another job sees no difference in the incident.
join-open :
    (org other job : ℕ) (sig : Signals) (i : Incident)
    → (job == other) ≡ false
    → is_open_for org other (join_incident job sig i) ≡ is_open_for org other i
unfolding is_open_for
join-open org other job sig i differ = rw (elem-add_job other job i.affected_job_ids differ) refl

-- Rows for which the update does not change the test.
count_where-update_same :
    (p q : Incident → Bool) (f : Incident → Incident) (xs : List Incident)
    → ((i : Incident) → q i ≡ true → p (f i) ≡ p i)
    → count_where p (update_where q f xs) ≡ count_where p xs
count_where-update_same p q f [] h = refl
count_where-update_same p q f (x ∷ xs) h =
    let ih = count_where-update_same p q f xs h in
    elim (Bool-cases (q x)) [
      | inl t ↦
          let same = h x t in
          elim (Bool-cases (p x)) [
            | inl u ↦ rw (t, same, u) (ap suc ih)
            | inr n ↦ rw (t, same, n) ih
          ]
      | inr n ↦ elim (Bool-cases (p x)) [ inl u ↦ rw (n, u) (ap suc ih) | inr m ↦ rw (n, m) ih ]
    ]

-- Only rows that are updated can come to pass.
count_where-update_le :
    (p q : Incident → Bool) (f : Incident → Incident) (xs : List Incident)
    → count_where p (update_where q f xs) ≤ count_where p xs + count_where q xs
count_where-update_le p q f [] = omega arith
count_where-update_le p q f (x ∷ xs) = elim (Bool-cases (q x)) [
  | inl t ↦ rw t (elim (Bool-cases (p (f x))) [
    | inl u ↦ rw u (elim (Bool-cases (p x)) [
      | inl v ↦ rw v (omega (arith, count_where-update_le p q f xs))
      | inr v ↦ rw v (omega (arith, count_where-update_le p q f xs))
    ])
    | inr u ↦ rw u (elim (Bool-cases (p x)) [
      | inl v ↦ rw v (omega (arith, count_where-update_le p q f xs))
      | inr v ↦ rw v (omega (arith, count_where-update_le p q f xs))
    ])
  ])
  | inr n ↦ rw n (elim (Bool-cases (p x)) [
    | inl v ↦ rw v (omega (arith, count_where-update_le p q f xs))
    | inr v ↦ rw v (count_where-update_le p q f xs)
  ])
]

abbrev pub named : Uuid → ℕ → Incident → Bool
named org incident i = i.id == incident && i.org_id == org

none-named :
    (org incident : ℕ) (xs : List Incident)
    → All (λ k. k.id ≢ incident) xs
    → count_where (named org incident) xs ≡ 0
none-named org incident [] h = refl
none-named org incident (x ∷ xs) h = elim (Bool-cases (named org incident x)) [
  | inl t ↦ absurd (h.0 (ground arith))
  | inr n ↦ rw n (none-named org incident xs h.1)
]

one-named :
    (org incident next : ℕ) (xs : List Incident)
    → HasFreshIds next xs
    → count_where (named org incident) xs ≤ 1
one-named org incident next [] h = omega arith
one-named org incident next (x ∷ xs) h = elim (Bool-cases (named org incident x)) [
  | inl t ↦
      let e : x.id ≡ incident = ground arith in
      let z = none-named org incident xs (All-weaken xs (λ k d q. d (q ∙ sym e)) h.1) in
      rw t (omega (arith, z))
  | inr n ↦ rw n (one-named org incident next xs h.2)
]

pub attach-HasOneEach :
    (org incident job : ℕ) (sig : Signals) (a : Alerts)
    → HasFreshIds a.next_incident a.incidents
    → HasOneEach org a.incidents
    → count_where (is_open_for org job) a.incidents ≡ 0
    → HasOneEach org (attach org incident job sig a).incidents
unfolding attach
attach-HasOneEach org incident job sig a fresh one free other = elim (Bool-cases (job == other)) [
  | inl t ↦
      let e : job ≡ other = ground arith in
      let free' : count_where (is_open_for org other) a.incidents ≡ 0 =
        ap (λ j. count_where (is_open_for org j) a.incidents) (sym e) ∙ free in
      omega (
        arith,
        count_where-update_le (is_open_for org other) (named org incident) (join_incident job sig)
            a.incidents,
        one-named org incident a.next_incident a.incidents fresh,
        free',
      )
  | inr n ↦ omega (
    arith,
    count_where-update_same (is_open_for org other) (named org incident) (join_incident job sig)
        a.incidents (λ i t. join-open org other job sig i n),
    one other,
  )
]

-- Updates that keep identifiers.
update-others :
    (id : ℕ) (q : Incident → Bool) (f : Incident → Incident) (xs : List Incident)
    → ((i : Incident) → (f i).id ≡ i.id)
    → All (λ k. k.id ≢ id) xs
    → All (λ k. k.id ≢ id) (update_where q f xs)
update-others id q f xs keep h =
    All-update_where (λ (k : Incident). k.id ≢ id) q f xs (λ k d e. d (sym (keep k) ∙ e)) h

pub update-HasFreshIds :
    (next : ℕ) (q : Incident → Bool) (f : Incident → Incident) (xs : List Incident)
    → ((i : Incident) → (f i).id ≡ i.id)
    → HasFreshIds next xs
    → HasFreshIds next (update_where q f xs)
update-HasFreshIds next q f [] keep h = tt
update-HasFreshIds next q f (x ∷ xs) keep h = elim (Bool-cases (q x)) [
  | inl t ↦ rw t (
    subst (λ n. n < next) (sym (keep x)) h.0,
    subst (λ n. All (λ k. k.id ≢ n) (update_where q f xs)) (sym (keep x))
        (update-others x.id q f xs keep h.1),
    update-HasFreshIds next q f xs keep h.2,
  )
  | inr n ↦ rw n (h.0, update-others x.id q f xs keep h.1, update-HasFreshIds next q f xs keep h.2)
]

pub append-HasFreshIds :
    (next : ℕ) (i : Incident) (xs : List Incident)
    → i.id ≡ next
    → HasFreshIds next xs
    → HasFreshIds (suc next) (xs ++ (i ∷ []))
append-HasFreshIds next i [] e h = (omega arith, tt, tt)
append-HasFreshIds next i (x ∷ xs) e h = (
  omega (arith, h.0),
  All-append (λ k. k.id ≢ x.id) xs (i ∷ []) h.1 ((λ q. omega (arith, h.0)), tt),
  append-HasFreshIds next i xs e h.2,
)

-- Where an update brings no row to pass, no more rows pass.
pub count_where-update_fewer :
    (p q : Incident → Bool) (f : Incident → Incident) (xs : List Incident)
    → ((i : Incident) → q i ≡ true → p (f i) ≡ true → p i ≡ true)
    → count_where p (update_where q f xs) ≤ count_where p xs
count_where-update_fewer p q f [] h = omega arith
count_where-update_fewer p q f (x ∷ xs) h =
    let ih = count_where-update_fewer p q f xs h in
    elim (Bool-cases (q x)) [
      | inl t ↦ elim (Bool-cases (p (f x))) [
        | inl u ↦ rw (t, u, h x t u) (omega (arith, ih))
        | inr n ↦
            rw (t, n)
              (elim (Bool-cases (p x)) [ inl v ↦ rw v (omega (arith, ih)) | inr v ↦ rw v ih ])
      ]
      | inr n ↦ elim (Bool-cases (p x)) [
        | inl v ↦ rw (n, v) (omega (arith, ih))
        | inr v ↦ rw (n, v) ih
      ]
    ]

-- A resolved incident is open for no job.
pub resolve-HasOneEach :
    (org job now : ℕ) (a : Alerts)
    → HasOneEach org a.incidents
    → HasOneEach org (auto_resolve org job now a).incidents
unfolding auto_resolve is_open_for
resolve-HasOneEach org job now a one other = omega (
  arith,
  count_where-update_fewer (is_open_for org other) (is_open_for org job) (resolve now) a.incidents
      λ i t h. ground arith,
  one other,
)

-- What is done for one organisation changes nothing for another.
module _ (org other : Uuid) (differ : (other == org) ≡ false) where
  pub foreign_attach :
      (incident job j : ℕ) (sig : Signals) (a : Alerts)
      → count_where (is_open_for org j) (attach other incident job sig a).incidents
        ≡ count_where (is_open_for org j) a.incidents
  unfolding attach is_open_for
  foreign_attach incident job j sig a =
      count_where-update_same (is_open_for org j) (named other incident) (join_incident job sig)
        a.incidents λ i t. let away : (i.org_id == org) ≡ false = ground arith in rw away refl

  pub foreign_resolve :
      (job j now : ℕ) (a : Alerts)
      → count_where (is_open_for org j) (auto_resolve other job now a).incidents
        ≡ count_where (is_open_for org j) a.incidents
  unfolding auto_resolve is_open_for
  foreign_resolve job j now a =
      count_where-update_same (is_open_for org j) (is_open_for other job) (resolve now) a.incidents
        λ i t. let away : (i.org_id == org) ≡ false = ground arith in rw away refl
