-- ===== src/Engine/Incidents.antt =====
-- The incidents of alerting/engine.py and alerting/correlation.py: no job is in two open ones.
use jobwatch.Prelude.{
  ℕ, ◌+◌, ◌≤◌, ◌<◌, ◌≡◌, ◌≢◌, inl, inr, Bool, true, none, List, [], ◌∷◌, ◌++◌, arith, Bool-cases,
  count_where, sort_desc-Mem, Mem, keep_if-Mem, All, count_where-zero,
}
use jobwatch.Db.{Uuid}
use jobwatch.Engine.{
  Signals, Incident, Alerts, is_open_for, open_incident, first_of, open_new, new_incident,
}

-- Identifiers are unique and below the next one.
abbrev pub HasFreshIds : ℕ → List Incident → Type 0
HasFreshIds next [] = Unit
HasFreshIds next (i ∷ is) = (i.id < next) × All (λ k. k.id ≢ i.id) is × HasFreshIds next is

-- No job of the organisation is in two open incidents.
abbrev pub HasOneEach : Uuid → List Incident → Type 0
HasOneEach org incidents = (job : Uuid) → count_where (is_open_for org job) incidents ≤ 1

-- No open incident is found exactly when none has the job.
pub open_incident-none :
    (org job : Uuid) (incidents : List Incident)
    → open_incident org job incidents ≡ none
    → count_where (is_open_for org job) incidents ≡ 0
unfolding open_incident
open_incident-none org job incidents h = count_where-zero (is_open_for org job) incidents λ x m.
    elim (Bool-cases (is_open_for org job x)) [
      | inl t ↦ absurd (
          found
            (sort_desc-Mem (λ (i : Incident). i.started_at) x _
              (keep_if-Mem (is_open_for org job) incidents m t))
            h)
      | inr n ↦ n
    ]
  where
    found : {x : Incident} {l : List Incident} → Mem x l → first_of l ≡ none → ⊥
    found {l = []} m e = elim m [ ]
    found {l = y ∷ ys} m e = cc

count_where-append :
    (p : Incident → Bool) (xs ys : List Incident)
    → count_where p (xs ++ ys) ≡ count_where p xs + count_where p ys
count_where-append p [] ys = omega arith
count_where-append p (x ∷ xs) ys = elim (Bool-cases (p x)) [
  | inl t ↦ rw t (omega (arith, count_where-append p xs ys))
  | inr n ↦ rw n (count_where-append p xs ys)
]

-- The new incident holds its job alone.
new_incident-open :
    (org now job rule other : ℕ) (sig : Signals) (id : ℕ)
    → is_open_for org other (new_incident org now job rule sig id) ≡ true
    → other ≡ job
unfolding is_open_for
new_incident-open org now job rule other sig id h = ground arith

pub open_new-HasOneEach :
    (org now job rule : ℕ) (sig : Signals) (a : Alerts)
    → HasOneEach org a.incidents
    → count_where (is_open_for org job) a.incidents ≡ 0
    → HasOneEach org (open_new org now job rule sig a).incidents
unfolding open_new
open_new-HasOneEach org now job rule sig a one free other =
    rw (count_where-append (is_open_for org other) a.incidents (new ∷ []))
      (elim (Bool-cases (is_open_for org other new)) [
        | inl t ↦
            let e : other ≡ job = new_incident-open org now job rule other sig a.next_incident t in
            rw t (rw e (rw free (omega arith)))
        | inr n ↦ rw n (omega (arith, one other))
      ])
  where
    new : Incident
    new = new_incident org now job rule sig a.next_incident
