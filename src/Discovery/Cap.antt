-- ===== src/Discovery/Cap.antt =====
-- The cap on jobs of a plan, as `discovery` of routers/agents.py keeps it.
use jobwatch.Prelude.{
  ℕ, ◌+◌, ◌≤◌, ◌≡◌, ◌∙◌, ap, sym, refl, ◌⊎◌, inl, inr, Bool, Option, none, some, List, [], ◌∷◌,
  ◌==◌, ==_iff, leb, Bool-cases, find_first, count_where, count_where-update_where,
  count_where-push, arith,
}
use jobwatch.Db.{Uuid, Agent}
use jobwatch.Discovery.{
  JobRow, DiscoveredJob, Found, is_found, valid_schedule, refresh, new_row, discover_known,
  discover, discover_all, discovery,
}

abbrev of_org : Uuid → JobRow → Bool
of_org org r = r.org_id == org

-- The number that the loop carries is the number of jobs.
Counts : Uuid → Found → Type 0
Counts org f = f.n ≡ count_where (of_org org) f.rows

module _ (validate : ℕ → Bool) (next_run : ℕ → ℕ) (make : ℕ → Uuid × ℕ) (org ws : Uuid)
    (server : Option Uuid) (m : ℕ) where
  abbrev known : DiscoveredJob → Option ℕ → Option JobRow → Found → Found
  known = discover_known validate next_run make org ws server (some m)

  abbrev step : DiscoveredJob → Found → Found
  step = discover validate next_run make org ws server (some m)

  abbrev run : List DiscoveredJob → Found → Found
  run = discover_all validate next_run make org ws server (some m)

  known-Counts :
      (j : DiscoveredJob) (sched : Option ℕ) (row : Option JobRow) (f : Found)
      → Counts org f
      → Counts org (known j sched row f)
  unfolding Counts
  known-Counts j sched (some row) f h =
      h
      ∙ sym (
          count_where-update_where (of_org org) (λ r. r.id == row.id) (refresh j server sched)
            f.rows (λ x. refl))
  known-Counts j sched none f h = elim (Bool-cases (leb m f.n)) [
    | inl full ↦ rw full h
    | inr room ↦ rw room (
        ap (λ k. k + 1) h
        ∙ sym (
            count_where-push (of_org org)
              (new_row validate next_run make org ws server (some m) j sched f) f.rows
              ((==_iff org org).1 refl)))
  ]

  known_bounds :
      (j : DiscoveredJob) (sched : Option ℕ) (row : Option JobRow) (f : Found)
      → ((known j sched row f).n ≤ m) ⊎ ((known j sched row f).n ≡ f.n)
  known_bounds j sched (some row) f = inr refl
  known_bounds j sched none f = elim (Bool-cases (leb m f.n)) [
    | inl full ↦ inr (rw full refl)
    | inr room ↦ let low : f.n + 1 ≤ m = ground arith in inl (rw room low)
  ]

  run_bounds :
      (js : List DiscoveredJob) (f : Found)
      → Counts org f
      → Counts org (run js f) × (((run js f).n ≤ m) ⊎ ((run js f).n ≡ f.n))
  unfolding discover_all discover
  run_bounds [] f h = (h, inr refl)
  run_bounds (j ∷ js) f h =
      let sched = valid_schedule validate j.schedule in
      let row = find_first (is_found org j.fingerprint) f.rows in
      let (counts, ih) = run_bounds js (step j f) (known-Counts j sched row f h) in
      (
        counts,
        elim ih [
          | inl low ↦ inl low
          | inr same ↦ elim (known_bounds j sched row f) [
            | inl low ↦ inl (omega arith)
            | inr kept ↦ inr (same ∙ kept)
          ]
        ],
      )

  -- For a plan with a limit of jobs: after a discovery the organisation has at most that many jobs, or exactly as
  -- many as before.
  pub discovery-Capped :
      (agent : Uuid) (now : ℕ) (js : List DiscoveredJob) (rows : List JobRow) (agents : List Agent)
      → (count_where
            (λ (r : JobRow). r.org_id == org)
            (discovery validate next_run make org ws server
              (some m)
              agent
              now
              js
              rows
              agents).0.rows
          ≤ m)
        ⊎ (count_where
              (λ (r : JobRow). r.org_id == org)
              (discovery validate next_run make org ws server
                (some m)
                agent
                now
                js
                rows
                agents).0.rows
            ≡ count_where (λ (r : JobRow). r.org_id == org) rows)
  unfolding discovery Counts
  discovery-Capped agent now js rows agents =
      let (counts, ends) =
        run_bounds js (record { rows = rows; tokens = []; n = count_where (of_org org) rows })
          refl in
      elim ends [ inl low ↦ inl (omega arith) | inr same ↦ inr (sym counts ∙ same) ]
