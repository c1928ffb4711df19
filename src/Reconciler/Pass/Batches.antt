-- ===== src/Reconciler/Pass/Batches.antt =====
-- `main` of workers/reconciler.py does its state pass in batches, each a transaction with a now() of its own.
use jobwatch.Prelude.{
  ℕ, zero, suc, ◌≤◌, ◌<◌, ◌≡◌, ◌⊎◌, inl, inr, refl, sym, subst, some, List, [], ◌∷◌, arith, take,
  drop, take-append-drop, length, length-drop, Mem, Mem-append,
}
use jobwatch.Db.{Job, Db, find_job}
use jobwatch.JobState.{Computed, compute}
use jobwatch.JobState.Stored.{Says}
use jobwatch.Reconciler.Pass.{recompute, recompute_batches}
use jobwatch.Reconciler.Pass.Keeps.{pass-row}

-- The jobs of a batch, by its number.
abbrev pub batch : ℕ → ℕ → List (ℕ × ℕ) → List (ℕ × ℕ)
batch size zero ps = take size ps
batch size (suc n) ps = batch size n (drop size ps)

-- The row says what is computed at an instant of some kind.
abbrev pub SaysAt : (ℕ → Type 0) → (ℕ → Computed) → Job → Type 0
SaysAt Fits cs k = (t : ℕ) × Fits t × Says (cs t) k

in_batches :
    (size : ℕ) (ps : List (ℕ × ℕ)) (x : ℕ × ℕ)
    → Mem x ps
    → Mem x (take size ps) ⊎ Mem x (drop size ps)
in_batches size ps x m =
    Mem-append (take size ps) (drop size ps) (subst (Mem x) (sym (take-append-drop size ps)) m)

batches-row :
    (id fuel size : ℕ) (clock : ℕ → ℕ) (ps : List (ℕ × ℕ)) (db : Db) (j : Job) (cs : ℕ → Computed)
    (Fits : ℕ → Type 0)
    → 0 < size
    → length ps ≤ fuel
    → find_job id db ≡ some j
    → ((t : ℕ) → compute db j t ≡ cs t)
    → ((n org : ℕ) → Mem (id, org) (batch size n ps) → Fits (clock n))
    → SaysAt Fits cs j ⊎ ((org : ℕ) × Mem (id, org) ps)
    → (k : Job) × (find_job id (recompute_batches fuel size clock ps db).1 ≡ some k)
      × SaysAt Fits cs k
unfolding recompute_batches
batches-row id zero size clock [] db j cs Fits pos enough h e fit s = elim s [
  | inl says ↦ (j, h, says)
  | inr (org, m) ↦ elim m [ ]
]
batches-row id zero size clock (p ∷ ps) db j cs Fits pos enough h e fit s = absurd (omega arith)
batches-row id (suc fuel) size clock [] db j cs Fits pos enough h e fit s = elim s [
  | inl says ↦ (j, h, says)
  | inr (org, m) ↦ elim m [ ]
]
batches-row id (suc fuel) size clock (p ∷ ps) db j cs Fits pos enough h e fit s =
    let later = drop size (p ∷ ps) in
    let (k, found, again, fits) =
      pass-row id (clock 0) (take size (p ∷ ps)) db j cs
        (λ x. SaysAt Fits cs x ⊎ ((org : ℕ) × Mem (id, org) later)) h e
        (λ x org m says. inl (clock 0, fit 0 org m, says))
        (elim s [
          | inl says ↦ inl (inl says)
          | inr (org, m) ↦ elim (in_batches size (p ∷ ps) (id, org) m) [
            | inl now ↦ inr (org, now)
            | inr then ↦ inl (inr (org, then))
          ]
        ]) in
    batches-row id fuel size (λ n. clock (suc n)) later
      (recompute (clock 0) (take size (p ∷ ps)) db).1 k cs Fits pos
      (omega (arith, length-drop size (p ∷ ps))) found again (λ n. fit (suc n)) fits

-- After a pass in batches of any positive size, each of which reads its own clock, the row of every job in the list
-- says what the state before the pass gives for the job at the reading of a batch that has the job, with as many
-- batches as there are jobs at most.
pub recompute_batches-Says :
    (id org fuel size : ℕ) (clock : ℕ → ℕ) (ps : List (ℕ × ℕ)) (db : Db) (j : Job)
    → 0 < size
    → length ps ≤ fuel
    → find_job id db ≡ some j
    → Mem (id, org) ps
    → (k : Job) × (find_job id (recompute_batches fuel size clock ps db).1 ≡ some k)
      × ((n org' : ℕ) × Mem (id, org') (batch size n ps) × Says (compute db j (clock n)) k)
recompute_batches-Says id org fuel size clock ps db j pos enough h m =
    let (k, found, (t, (n, org', there, e), says)) =
      batches-row id fuel size clock ps db j (compute db j)
        (λ t. (n : ℕ) × (org' : ℕ) × Mem (id, org') (batch size n ps) × (clock n ≡ t)) pos enough h
        (λ t. refl) (λ n org' there. (n, org', there, refl)) (inr (org, m)) in
    (k, found, (n, org', there, subst (λ u. Says (compute db j u) k) (sym e) says))
