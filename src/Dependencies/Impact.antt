-- ===== src/Dependencies/Impact.antt =====
-- What `downstream_impact` of alerting/correlation.py lists: jobs with the lengths of the chains to them.
use jobwatch.Prelude.{
  ℕ, zero, suc, ◌+◌, ◌-◌, ◌≤◌, ◌≡◌, ◌↔◌, ap, sym, refl, subst, inl, inr, List, [], ◌∷◌, ◌++◌, Mem,
  head, tail, map, map-Mem, Mem-map, Mem-append, Mem-append_left, Mem-append_right, arith,
}
use jobwatch.Db.{Uuid}
use jobwatch.Dependencies.{
  Dependency, Depth, downstream, fresh, next_level, down_levels, downstream_impact,
}
use jobwatch.Dependencies.Reach.{fresh-Mem, Mem-fresh}

module _ (deps : List Dependency) (job : Uuid) where
  -- A chain of so many rows from a job to `job`.
  abbrev pub Chain : ℕ → Uuid → Type 0
  Chain zero j = j ≡ job
  Chain (suc n) j = (m : Uuid) × Mem j (downstream deps m) × Chain n m

  abbrev IsLevel : ℕ → List Uuid → Type 0
  IsLevel n work = (j : Uuid) → Mem j work ↔ Chain n j

  next_level-Mem :
      (work : List Uuid) (m j : Uuid)
      → Mem m work
      → Mem j (downstream deps m)
      → Mem j (next_level deps work)
  unfolding next_level
  next_level-Mem [] m j at_work d = elim at_work [ ]
  next_level-Mem (k ∷ ks) m j head d = Mem-append_left (next_level deps ks) d
  next_level-Mem (k ∷ ks) m j (tail at_work) d =
      Mem-append_right (downstream deps k) (next_level-Mem ks m j at_work d)

  Mem-next_level :
      (work : List Uuid) (j : Uuid)
      → Mem j (next_level deps work)
      → (m : Uuid) × Mem m work × Mem j (downstream deps m)
  unfolding next_level
  Mem-next_level [] j n = elim n [ ]
  Mem-next_level (k ∷ ks) j n = elim (Mem-append (downstream deps k) (next_level deps ks) n) [
    | inl d ↦ (k, head, d)
    | inr r ↦ let (m, at_work, d) = Mem-next_level ks j r in (m, tail at_work, d)
  ]

  Mem-fresh_all : (js : List Uuid) (j : Uuid) → Mem j js → Mem j (fresh [] js)
  Mem-fresh_all js j m = elim (Mem-fresh [] js m) [ inl seen ↦ elim seen [ ] | inr new ↦ new ]

  IsLevel-next :
      (n : ℕ) (work : List Uuid)
      → IsLevel n work
      → IsLevel (suc n) (fresh [] (next_level deps work))
  IsLevel-next n work level j = (
    (λ m.
        let (k, at_work, d) = Mem-next_level work j (fresh-Mem [] (next_level deps work) m) in
        (k, d, (level k).0 at_work)),
    (λ (k, d, chain).
        Mem-fresh_all (next_level deps work) j (next_level-Mem work k j ((level k).1 chain) d)),
  )

  at_level :
      (n : ℕ) (work : List Uuid) (j : Uuid) (k : ℕ)
      → IsLevel n work
      → Mem {A = Depth} (j, k) (map (λ i. (i, n)) work)
      → (k ≡ n) × Chain k j
  at_level n work j k level m =
      let (i, at_work, e) = Mem-map (λ (i : Uuid). (i, n)) work m in
      let same : k ≡ n = ap (λ (x : Depth). x.1) e in
      let here : j ≡ i = ap (λ (x : Depth). x.0) e in
      (
        same,
        subst (λ l. Chain l j) (sym same) (subst (λ x. Chain n x) (sym here) ((level i).0 at_work)),
      )

  level-at :
      (n : ℕ) (work : List Uuid) (j : Uuid)
      → IsLevel n work
      → Chain n j
      → Mem {A = Depth} (j, n) (map (λ i. (i, n)) work)
  level-at n work j level chain = map-Mem (λ (i : Uuid). (i, n)) ((level j).1 chain)

  down_levels-Chain :
      (room n : ℕ) (work : List Uuid) (j : Uuid) (k : ℕ)
      → IsLevel n work
      → Mem {A = Depth} (j, k) (down_levels room n deps work)
      → (n ≤ k) × (k ≤ n + room) × Chain k j
  unfolding down_levels
  down_levels-Chain zero n work j k level m =
      let (same, chain) = at_level n work j k level m in (omega arith, omega arith, chain)
  down_levels-Chain (suc room) n work j k level m =
      let new = fresh [] (next_level deps work) in
      elim (Mem-append (map (λ i. (i, n)) work) (down_levels room (suc n) deps new) m) [
        | inl here ↦
            let (same, chain) = at_level n work j k level here in (omega arith, omega arith, chain)
        | inr later ↦
            let (above, below, chain) =
              down_levels-Chain room (suc n) new j k (IsLevel-next n work level) later in
            (omega arith, omega arith, chain)
      ]

  Chain-down_levels :
      (room n : ℕ) (work : List Uuid) (j : Uuid) (more : ℕ)
      → IsLevel n work
      → more ≤ room
      → Chain (n + more) j
      → Mem {A = Depth} (j, n + more) (down_levels room n deps work)
  unfolding down_levels
  Chain-down_levels zero n work j more level le chain =
      let e : n + more ≡ n = omega arith in
      subst (λ l. Mem {A = Depth} (j, l) (map (λ i. (i, n)) work)) (sym e)
        (level-at n work j level (subst (λ l. Chain l j) e chain))
  Chain-down_levels (suc room) n work j zero level le chain =
      let e : n + 0 ≡ n = omega arith in
      let new = fresh [] (next_level deps work) in
      subst
        (λ l. Mem {A = Depth} (j, l) (map (λ i. (i, n)) work ++ down_levels room (suc n) deps new))
        (sym e)
        (Mem-append_left (down_levels room (suc n) deps new)
          (level-at n work j level (subst (λ l. Chain l j) e chain)))
  Chain-down_levels (suc room) n work j (suc more) level le chain =
      let e : n + suc more ≡ suc n + more = omega arith in
      let new = fresh [] (next_level deps work) in
      subst
        (λ l. Mem {A = Depth} (j, l) (map (λ i. (i, n)) work ++ down_levels room (suc n) deps new))
        (sym e)
        (Mem-append_right (map (λ i. (i, n)) work) (
          Chain-down_levels room (suc n) new j more (IsLevel-next n work level) (omega arith)
            (subst (λ l. Chain l j) e chain)))

  IsLevel-first : IsLevel 1 (fresh [] (downstream deps job))
  IsLevel-first j = (
    (λ m. (job, fresh-Mem [] (downstream deps job) m, refl)),
    (λ (k, d, e).
        Mem-fresh_all (downstream deps job) j (subst (λ x. Mem j (downstream deps x)) e d)),
  )

-- The impact of a job lists another at a depth exactly when a chain of so many rows leads from it to the job, for the
-- depths from 1 to 10: chains that are longer are not followed, and a job to which chains of two lengths lead
-- is listed twice.
pub downstream_impact_iff :
    (deps : List Dependency) (job j : Uuid) (k : ℕ)
    → Mem {A = Depth} (j, k) (downstream_impact deps job)
      ↔ ((1 ≤ k) × (k ≤ 10) × Chain deps job k j)
unfolding downstream_impact
downstream_impact_iff deps job j k =
    let work = fresh [] (downstream deps job) in
    (
      (λ m.
          let (low, high, chain) =
            down_levels-Chain deps job 9 1 work j k (IsLevel-first deps job) m in
          (low, omega arith, chain)),
      (λ (low, high, chain).
          let e : 1 + (k - 1) ≡ k = omega arith in
          subst (λ l. Mem {A = Depth} (j, l) (down_levels 9 1 deps work)) e
            (Chain-down_levels deps job 9 1 work j (k - 1) (IsLevel-first deps job) (omega arith)
              (subst (λ l. Chain deps job l j) (sym e) chain))),
    )
