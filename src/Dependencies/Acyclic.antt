-- ===== src/Dependencies/Acyclic.antt =====
-- The dependency graph of routers/topology.py keeps free of cycles.
use jobwatch.Prelude.{
  ◌≡◌, ◌≢◌, ◌∙◌, ap, sym, subst, false, ◌&&◌, not, ◌⊎◌, inl, inr, List, [], ◌∷◌, ◌++◌, Mem, head,
  Mem-append, Mem-append_left, Mem-append_right, Mem-cases, Mem-keep_if, keep_if-Mem, keep_if,
  any_of, ◌==◌, ==_iff, Bool-cases,
}
use jobwatch.Db.{Uuid}
use jobwatch.Http.{ok, past-guard, ok-injective}
use jobwatch.Access.{Principal, developer, at_least}
use jobwatch.Dependencies.{
  Dependency, Graph, visible, would_cycle, knows, is_dependency, new_dependency, add_dependency,
  remove_dependency,
}
use jobwatch.Dependencies.Reach.{Reaches, direct, via, Reaches-trans}
use jobwatch.Dependencies.Rounds.{would_cycle_iff}

-- No job depends on itself, at once or through others.
unfoldable pub IsAcyclic : List Dependency → Type 0
IsAcyclic deps = (a : Uuid) → ¬ Reaches deps a a

-- So of every organisation's graph.
unfoldable pub IsSound : Graph → Type 0
unfolding IsAcyclic
IsSound g = (org : Uuid) → IsAcyclic (visible org g.job_dependencies)

Reaches-weaken :
    {xs ys : List Dependency} {a b : Uuid}
    → ((d : Dependency) → Mem d xs → Mem d ys)
    → Reaches xs a b
    → Reaches ys a b
Reaches-weaken in_ys (direct d m e f) = direct d (in_ys d m) e f
Reaches-weaken in_ys (via d m e r) = via d (in_ys d m) e (Reaches-weaken in_ys r)

-- The end of a chain, or a chain.
abbrev Leads : List Dependency → Uuid → Uuid → Type 0
Leads deps a b = (a ≡ b) ⊎ Reaches deps a b

Leads-trans :
    {deps : List Dependency} {a b c : Uuid} → Leads deps a b → Reaches deps b c → Reaches deps a c
Leads-trans {deps} {c} (inl e) r = subst (λ x. Reaches deps x c) (sym e) r
Leads-trans (inr s) r = Reaches-trans s r

-- A chain with one row more goes through that row, or was there before.
module _ (deps : List Dependency) (d : Dependency) where
  chain-append :
      {a b : Uuid}
      → Reaches (deps ++ (d ∷ [])) a b
      → Reaches deps a b ⊎ (Leads deps a d.job_id × Leads deps d.depends_on_job_id b)
  chain-append {a} {b} (direct k m e f) = elim (Mem-append deps (d ∷ []) m) [
    | inl old ↦ inl (direct k old e f)
    | inr new ↦ elim (Mem-cases new) [
      | inl same ↦ inr (
        inl (sym e ∙ ap (λ x. x.job_id) same),
        inl (sym (ap (λ x. x.depends_on_job_id) same) ∙ f),
      )
      | inr none_left ↦ elim none_left [ ]
    ]
  ]
  chain-append {a} {b} (via k m e r) = elim (Mem-append deps (d ∷ []) m) [
    | inl old ↦ elim (chain-append r) [
      | inl s ↦ inl (via k old e s)
      | inr (to, from) ↦
          inr (inr (elim to [ inl at_end ↦ direct k old e at_end | inr t ↦ via k old e t ]), from)
    ]
    | inr new ↦ elim (Mem-cases new) [
      | inl same ↦
          let here : Leads deps a d.job_id = inl (sym e ∙ ap (λ (x : Dependency). x.job_id) same) in
          elim (chain-append r) [
            | inl s ↦
                inr (
                  here,
                  inr (subst (λ (x : Dependency). Reaches deps x.depends_on_job_id b) same s),
                )
            | inr (to, from) ↦ inr (here, from)
          ]
      | inr none_left ↦ elim none_left [ ]
    ]
  ]

  IsAcyclic-append :
      IsAcyclic deps
      → d.job_id ≢ d.depends_on_job_id
      → ¬ Reaches deps d.depends_on_job_id d.job_id
      → IsAcyclic (deps ++ (d ∷ []))
  unfolding IsAcyclic
  IsAcyclic-append acyclic apart no_chain a r = elim (chain-append r) [
    | inl old ↦ acyclic a old
    | inr (to, from) ↦ elim to [
      | inr t ↦ no_chain (Leads-trans from t)
      | inl e ↦ elim from [
        | inl f ↦ apart (sym (f ∙ e))
        | inr s ↦ no_chain (subst (λ x. Reaches deps d.depends_on_job_id x) e s)
      ]
    ]
  ]

IsAcyclic-weaken :
    (xs ys : List Dependency)
    → ((d : Dependency) → Mem d xs → Mem d ys)
    → IsAcyclic ys
    → IsAcyclic xs
unfolding IsAcyclic
IsAcyclic-weaken xs ys in_ys acyclic a r = acyclic a (Reaches-weaken in_ys r)

-- What another row can add to what an organisation sees.
visible-append :
    (org : Uuid) (deps : List Dependency) (d k : Dependency)
    → Mem k (visible org (deps ++ (d ∷ [])))
    → Mem k (visible org deps) ⊎ ((k ≡ d) × (d.org_id ≡ org))
visible-append org deps d k m =
    let (there, mine) = Mem-keep_if (λ (x : Dependency). x.org_id == org) (deps ++ (d ∷ [])) m in
    elim (Mem-append deps (d ∷ []) there) [
      | inl old ↦ inl (keep_if-Mem (λ (x : Dependency). x.org_id == org) deps old mine)
      | inr new ↦ elim (Mem-cases new) [
        | inl same ↦
            inr (same, sym (ap (λ (x : Dependency). x.org_id) same) ∙ (==_iff k.org_id org).0 mine)
        | inr none_left ↦ elim none_left [ ]
      ]
    ]

module _ (p : Principal) (job depends_on : Uuid) (deps : List Dependency) where
  abbrev d : Dependency
  d = new_dependency p job depends_on

  appended-IsAcyclic :
      (org : Uuid)
      → ((o : Uuid) → IsAcyclic (visible o deps))
      → job == depends_on ≡ false
      → would_cycle (visible p.org_id deps) job depends_on ≡ false
      → IsAcyclic (visible org (deps ++ (d ∷ [])))
  appended-IsAcyclic org sound apart refused = elim (Bool-cases (p.org_id == org)) [
    | inr other ↦
        IsAcyclic-weaken (visible org (deps ++ (d ∷ []))) (visible org deps)
          (λ k m. elim (visible-append org deps d k m) as (λ _. Mem k (visible org deps)) [
            | inl old ↦ old
            | inr (same, mine) ↦ cc ((==_iff p.org_id org).1 mine)
          ])
          (sound org)
    | inl mine ↦
        let here : p.org_id ≡ org = (==_iff p.org_id org).0 mine in
        IsAcyclic-weaken (visible org (deps ++ (d ∷ []))) (visible org deps ++ (d ∷ []))
          (λ k m.
            elim (visible-append org deps d k m) as (λ _. Mem k (visible org deps ++ (d ∷ []))) [
              | inl old ↦ Mem-append_left (d ∷ []) old
              | inr (same, _) ↦
                  subst (λ x. Mem x (visible org deps ++ (d ∷ []))) (sym same)
                    (Mem-append_right (visible org deps) head)
            ])
          (IsAcyclic-append (visible org deps) d (sound org) (λ e. cc ((==_iff job depends_on).1 e))
            (λ r. cc (
              (would_cycle_iff (visible p.org_id deps) job depends_on).1
                (subst (λ o. Reaches (visible o deps) depends_on job) (sym here) r))))
  ]

-- Adding a dependency keeps every organisation's graph free of cycles.
pub add_dependency-IsSound :
    (p : Principal) (job depends_on : Uuid) (g after : Graph)
    → IsSound g
    → add_dependency p job depends_on g ≡ ok after
    → IsSound after
unfolding IsSound add_dependency
add_dependency-IsSound p job depends_on g after sound h =
    let deps = g.job_dependencies in
    let (may, rest'') = past-guard (not (at_least p developer)) 403 _ h in
    let (apart, rest) = past-guard (job == depends_on) 400 _ rest'' in
    let (known, rest') =
      past-guard (not (knows p.org_id g.jobs job && knows p.org_id g.jobs depends_on)) 404 _ rest in
    let (refused, end) =
      past-guard (would_cycle (visible p.org_id deps) job depends_on) 409 _ rest' in
    subst IsSound (ok-injective end) (λ org.
      elim (Bool-cases (any_of (is_dependency job depends_on) deps)) [
        | inl there ↦ rw there (sound org)
        | inr new ↦ rw new (appended-IsAcyclic p job depends_on deps org sound apart refused)
      ])

pub remove_dependency-IsSound :
    (p : Principal) (job depends_on : Uuid) (g after : Graph)
    → IsSound g
    → remove_dependency p job depends_on g ≡ ok after
    → IsSound after
unfolding IsSound remove_dependency
remove_dependency-IsSound p job depends_on g after sound h =
    let stays = λ (d : Dependency). not (is_dependency job depends_on d && d.org_id == p.org_id) in
    let (may, end) = past-guard (not (at_least p developer)) 403 _ h in
    subst IsSound (ok-injective end) (λ org.
      let mine = λ (d : Dependency). d.org_id == org in
      IsAcyclic-weaken (keep_if mine (keep_if stays g.job_dependencies))
        (keep_if mine g.job_dependencies)
        (λ k m.
          let (left, t) = Mem-keep_if mine (keep_if stays g.job_dependencies) m in
          keep_if-Mem mine g.job_dependencies (Mem-keep_if stays g.job_dependencies left).0 t)
        (sound org))
