-- ===== src/Topology/Rollup.antt =====
-- The statuses that routers/topology.py rolls up.
use jobwatch.Prelude.{
  ℕ, ◌≤◌, ◌≡◌, ap, subst, inl, inr, Option, none, some, List, [], ◌∷◌, ◌++◌, map, map-Mem, Mem,
  head, tail, Mem-cases, Mem-append_left, Mem-append_right, Mem-append_last, ◌==◌, ltb, Bool-cases,
  if◌then◌else◌, arith,
}
use jobwatch.Status.{JobStatus}
use jobwatch.Topology.{
  status_rank, worst_from, worst, JobRef, Row, part_of, Part, Group, put_job, add_to, put_row,
  put_rows, job_statuses, part_status, group_status, topology,
}

better :
    (w y : JobStatus)
    → (status_rank w ≤ status_rank (if ltb (status_rank w) (status_rank y) then y else w))
      × (status_rank y ≤ status_rank (if ltb (status_rank w) (status_rank y) then y else w))
better w y = elim (Bool-cases (ltb (status_rank w) (status_rank y))) [
  | inl t ↦ rw t (ground arith, ground arith)
  | inr f ↦ rw f (ground arith, ground arith)
]

worst_from_ge :
    (w : JobStatus) (xs : List JobStatus) (x : JobStatus)
    → Mem x (w ∷ xs)
    → status_rank x ≤ status_rank (worst_from w xs)
unfolding worst_from
worst_from_ge w [] x m = elim (Mem-cases m) [ inl e ↦ rw e (omega arith) | inr n ↦ elim n [ ] ]
worst_from_ge w (y ∷ ys) x m =
    let best = if ltb (status_rank w) (status_rank y) then y else w in
    let first = worst_from_ge best ys best head in
    let (first_le, second_le) = better w y in
    elim (Mem-cases m) [
      | inl e ↦ omega (arith, ap status_rank e)
      | inr m' ↦ elim (Mem-cases m') [
        | inl e ↦ omega (arith, ap status_rank e)
        | inr m'' ↦ worst_from_ge best ys x (tail m'')
      ]
    ]

pub worst_ge :
    (xs : List JobStatus) (x : JobStatus) → Mem x xs → status_rank x ≤ status_rank (worst xs)
unfolding worst
worst_ge [] x m = elim m [ ]
worst_ge (w ∷ xs) x m = worst_from_ge w xs x m

-- Where a job stands in the tree.
abbrev pub InParts : JobRef → List Part → Type 0
InParts j ps = (p : Part) × Mem p ps × Mem j p.jobs

abbrev pub InGroups : JobRef → List Group → Type 0
InGroups j gs = (g : Group) × Mem g gs × InParts j g.parts

later-part : {j : JobRef} {p : Part} {ps : List Part} → InParts j ps → InParts j (p ∷ ps)
later-part (q, m, n) = (q, tail m, n)

later-group : {j : JobRef} {g : Group} {gs : List Group} → InGroups j gs → InGroups j (g ∷ gs)
later-group (h, m, n) = (h, tail m, n)

put_job-here : (name : ℕ) (j : JobRef) (ps : List Part) → InParts j (put_job name j ps)
unfolding put_job
put_job-here name j [] = (record { name = name; jobs = j ∷ [] }, head, head)
put_job-here name j (p ∷ ps) = elim (Bool-cases (p.name == name)) [
  | inl t ↦ rw t (record p { jobs = p.jobs ++ (j ∷ []) }, head, Mem-append_last p.jobs j)
  | inr f ↦ rw f (later-part (put_job-here name j ps))
]

put_job_keeps :
    (name : ℕ) (j k : JobRef) (ps : List Part) → InParts k ps → InParts k (put_job name j ps)
unfolding put_job
put_job_keeps name j k [] (q, m, n) = elim m [ ]
put_job_keeps name j k (p ∷ ps) (q, m, n) = elim (Bool-cases (p.name == name)) [
  | inl t ↦ rw t (elim (Mem-cases m) [
    | inl e ↦ (
      record p { jobs = p.jobs ++ (j ∷ []) },
      head,
      Mem-append_left (j ∷ []) (subst (λ (x : Part). Mem k x.jobs) e n),
    )
    | inr m' ↦ (q, tail m', n)
  ])
  | inr f ↦ rw f (elim (Mem-cases m) [
    | inl e ↦ (p, head, subst (λ (x : Part). Mem k x.jobs) e n)
    | inr m' ↦ later-part (put_job_keeps name j k ps (q, m', n))
  ])
]

add_to_keeps :
    (r : Row) (o : Option JobRef) (k : JobRef) (ps : List Part)
    → InParts k ps
    → InParts k (add_to r o ps)
add_to_keeps r none k ps h = h
add_to_keeps r (some j) k ps h = put_job_keeps (part_of r.part) j k ps h

add_to-here :
    (r : Row) (j : JobRef) (ps : List Part) → r.job ≡ some j → InParts j (add_to r r.job ps)
add_to-here r j ps e = rw e (put_job-here (part_of r.part) j ps)

put_row-here : (r : Row) (j : JobRef) (gs : List Group) → r.job ≡ some j → InGroups j (put_row r gs)
unfolding put_row
put_row-here r j [] e =
    (record { id = r.id; parts = add_to r r.job [] }, head, add_to-here r j [] e)
put_row-here r j (g ∷ gs) e = elim (Bool-cases (g.id == r.id)) [
  | inl t ↦ rw t (record g { parts = add_to r r.job g.parts }, head, add_to-here r j g.parts e)
  | inr f ↦ rw f (later-group (put_row-here r j gs e))
]

put_row_keeps : (r : Row) (k : JobRef) (gs : List Group) → InGroups k gs → InGroups k (put_row r gs)
unfolding put_row
put_row_keeps r k [] (h, m, n) = elim m [ ]
put_row_keeps r k (g ∷ gs) (h, m, n) = elim (Bool-cases (g.id == r.id)) [
  | inl t ↦ rw t (elim (Mem-cases m) [
    | inl e ↦ (
      record g { parts = add_to r r.job g.parts },
      head,
      add_to_keeps r r.job k g.parts (subst (λ (x : Group). InParts k x.parts) e n),
    )
    | inr m' ↦ (h, tail m', n)
  ])
  | inr f ↦ rw f (elim (Mem-cases m) [
    | inl e ↦ (g, head, subst (λ (x : Group). InParts k x.parts) e n)
    | inr m' ↦ later-group (put_row_keeps r k gs (h, m', n))
  ])
]

put_rows_keeps :
    (rs : List Row) (k : JobRef) (gs : List Group) → InGroups k gs → InGroups k (put_rows rs gs)
unfolding put_rows
put_rows_keeps [] k gs h = h
put_rows_keeps (r ∷ rs) k gs h = put_rows_keeps rs k (put_row r gs) (put_row_keeps r k gs h)

put_rows-here :
    (rs : List Row) (r : Row) (j : JobRef) (gs : List Group)
    → Mem r rs
    → r.job ≡ some j
    → InGroups j (put_rows rs gs)
unfolding put_rows
put_rows-here (r ∷ rs) r' j gs head e = put_rows_keeps rs j (put_row r gs) (put_row-here r j gs e)
put_rows-here (r ∷ rs) r' j gs (tail m) e = put_rows-here rs r' j (put_row r gs) m e
put_rows-here [] r j gs m e = elim m [ ]

group_status_ge :
    (j : JobRef) (gs : List Group)
    → InGroups j gs
    → (g : Group) × Mem g gs × (status_rank j.status ≤ status_rank (group_status g))
group_status_ge j gs (g, m, (p, n, in_part)) =
    let a = worst_ge (job_statuses p.jobs) j.status (map-Mem (λ (x : JobRef). x.status) in_part) in
    let b = worst_ge (map part_status g.parts) (part_status p) (map-Mem part_status n) in
    (g, m, omega arith)

-- Every job that a row brings is listed in its server or cluster, and no listed job, nor one without either, is worse
-- than the status of the tree.
pub topology_worst :
    (servers clusters : List Row) (orphans : List JobRef) (j : JobRef)
    → let t = topology servers clusters orphans in
      ((r : Row)
        → Mem r servers
        → r.job ≡ some j
        → InGroups j t.servers × (status_rank j.status ≤ status_rank t.status))
      × ((r : Row)
          → Mem r clusters
          → r.job ≡ some j
          → InGroups j t.clusters × (status_rank j.status ≤ status_rank t.status))
      × (Mem j orphans → status_rank j.status ≤ status_rank t.status)
unfolding topology
topology_worst servers clusters orphans j =
    let ss = put_rows servers [] in
    let cs = put_rows clusters [] in
    let statuses = map group_status (ss ++ cs) ++ job_statuses orphans in
    let grouped = λ (g : Group) (m : Mem g (ss ++ cs)).
      worst_ge statuses (group_status g)
        (Mem-append_left (job_statuses orphans) (map-Mem group_status m)) in
    (
      (λ r m e.
          let here = put_rows-here servers r j [] m e in
          let (g, n, le) = group_status_ge j ss here in
          let up = grouped g (Mem-append_left cs n) in (here, omega arith)),
      (λ r m e.
          let here = put_rows-here clusters r j [] m e in
          let (g, n, le) = group_status_ge j cs here in
          let up = grouped g (Mem-append_right ss n) in (here, omega arith)),
      (λ m.
          worst_ge statuses j.status (
            Mem-append_right (map group_status (ss ++ cs)) (map-Mem (λ (x : JobRef). x.status) m))),
    )
