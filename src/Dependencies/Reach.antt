-- ===== src/Dependencies/Reach.antt =====
-- What the recursive query of routers/topology.py finds: the jobs that are reached, and no others.
use jobwatch.Prelude.{
  ◌≡◌, sym, refl, subst, false, ◌⊎◌, inl, inr, List, [], ◌∷◌, Mem, head, tail, Mem-cases,
  Mem-append, Mem-append_left, Mem-append_right, elem-Mem, elem, map-Mem, Mem-map, keep_if-Mem,
  Mem-keep_if, ◌==◌, ==_iff, Bool-cases, arith,
}
use jobwatch.Db.{Uuid}
use jobwatch.Dependencies.{Dependency, upstream, fresh, all_upstream, up}

-- A job depends on another, at once or through others.
pub data Reaches (deps : List Dependency) : Uuid → Uuid → Type 0 where
  direct :
      {a b : Uuid} (d : Dependency)
      → Mem d deps
      → d.job_id ≡ a
      → d.depends_on_job_id ≡ b
      → Reaches deps a b
  via :
      {a b : Uuid} (d : Dependency)
      → Mem d deps
      → d.job_id ≡ a
      → Reaches deps d.depends_on_job_id b
      → Reaches deps a b

pub Reaches-trans :
    {deps : List Dependency} {a b c : Uuid} → Reaches deps a b → Reaches deps b c → Reaches deps a c
Reaches-trans {deps} {c} (direct d m e f) r = via d m e (subst (λ x. Reaches deps x c) (sym f) r)
Reaches-trans (via d m e s) r = via d m e (Reaches-trans s r)

pub Mem-upstream :
    (deps : List Dependency) (j x : Uuid)
    → Mem x (upstream deps j)
    → (d : Dependency) × Mem d deps × (d.job_id ≡ j) × (d.depends_on_job_id ≡ x)
Mem-upstream deps j x m =
    let (d, kept, e) = Mem-map (λ (d : Dependency). d.depends_on_job_id) _ m in
    let (old, mine) = Mem-keep_if (λ (d : Dependency). d.job_id == j) deps kept in
    (d, old, (==_iff d.job_id j).0 mine, sym e)

pub upstream-Mem :
    (deps : List Dependency) (d : Dependency)
    → Mem d deps
    → Mem d.depends_on_job_id (upstream deps d.job_id)
upstream-Mem deps d m =
    map-Mem (λ (d : Dependency). d.depends_on_job_id)
      (keep_if-Mem (λ (e : Dependency). e.job_id == d.job_id) deps m
        ((==_iff d.job_id d.job_id).1 refl))

pub fresh-Mem : (seen js : List Uuid) {x : Uuid} → Mem x (fresh seen js) → Mem x js
unfolding fresh
fresh-Mem seen [] m = m
fresh-Mem seen (j ∷ js) m = elim (Bool-cases (elem j seen)) [
  | inl old ↦ tail (fresh-Mem seen js (rw old at m))
  | inr new ↦ elim (Mem-cases (rw new at m)) [
    | inl e ↦ rw e head
    | inr m' ↦ tail (fresh-Mem (j ∷ seen) js m')
  ]
]

-- Nothing is lost, and what is new was not there.
pub Mem-fresh : (seen js : List Uuid) {x : Uuid} → Mem x js → Mem x seen ⊎ Mem x (fresh seen js)
unfolding fresh
Mem-fresh seen [] m = elim m [ ]
Mem-fresh seen (j ∷ js) {x} m = elim (Bool-cases (elem j seen)) [
  | inl old ↦ elim (Mem-cases m) [
    | inl e ↦ inl (rw e (elem-Mem j seen old))
    | inr m' ↦ rw old (Mem-fresh seen js m')
  ]
  | inr new ↦ elim (Mem-cases m) [
    | inl e ↦ inr (rw (new, e) head)
    | inr m' ↦ elim (Mem-fresh (j ∷ seen) js m') [
      | inl later ↦ elim (Mem-cases later) [ inl e ↦ inr (rw (new, e) head) | inr s ↦ inl s ]
      | inr f ↦ inr (rw new (tail f))
    ]
  ]
]

pub fresh-new : (seen js : List Uuid) (x : Uuid) → Mem x (fresh seen js) → elem x seen ≡ false
unfolding fresh
fresh-new seen [] x m = elim m [ ]
fresh-new seen (j ∷ js) x m = elim (Bool-cases (elem j seen)) [
  | inl old ↦ fresh-new seen js x (rw old at m)
  | inr new ↦ elim (Mem-cases (rw new at m)) [
    | inl e ↦ rw e new
    | inr m' ↦ let later = fresh-new (j ∷ seen) js x m' in ground arith
  ]
]

pub Mem-all_upstream :
    (deps : List Dependency) (work : List Uuid) (x : Uuid)
    → Mem x (all_upstream deps work)
    → (j : Uuid) × Mem j work × Mem x (upstream deps j)
Mem-all_upstream deps [] x m = elim m [ ]
Mem-all_upstream deps (j ∷ js) x m = elim (Mem-append (upstream deps j) (all_upstream deps js) m) [
  | inl l ↦ (j, head, l)
  | inr r ↦ let (k, mem, up) = Mem-all_upstream deps js x r in (k, tail mem, up)
]

pub all_upstream-Mem :
    (deps : List Dependency) (work : List Uuid) (j x : Uuid)
    → Mem j work
    → Mem x (upstream deps j)
    → Mem x (all_upstream deps work)
all_upstream-Mem deps (k ∷ ks) j x head u = Mem-append_left (all_upstream deps ks) u
all_upstream-Mem deps (k ∷ ks) j x (tail m) u =
    Mem-append_right (upstream deps k) (all_upstream-Mem deps ks j x m u)
all_upstream-Mem deps [] j x m u = elim m [ ]
