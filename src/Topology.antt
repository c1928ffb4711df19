-- ===== src/Topology.antt =====
-- `topology` of cronsentinel/routers/topology.py: servers with users, clusters with namespaces, and statuses that roll up.
-- Servers and clusters are grouped by one function; names that are only passed on are left out.
pub mod Rollup
use jobwatch.Prelude.{
  ℕ, Bool, true, false, Option, none, some, List, [], ◌∷◌, ◌++◌, map, ◌==◌, ltb, if◌then◌else◌,
}
use jobwatch.Status.{JobStatus}
use jobwatch.Db.{Uuid}

-- RANK
unfoldable pub status_rank : JobStatus → ℕ
status_rank JobStatus.failed = 4
status_rank JobStatus.timeout = 4
status_rank JobStatus.missed = 3
status_rank JobStatus.late = 2
status_rank JobStatus.running = 1
status_rank JobStatus.recovered = 1
status_rank JobStatus.healthy = 0
status_rank JobStatus.unknown = 0
status_rank JobStatus.paused = 0

-- max(xs, key=...): the first of the greatest.
unfoldable pub worst_from : JobStatus → List JobStatus → JobStatus
unfolding status_rank
worst_from w [] = w
worst_from w (x ∷ xs) = worst_from (if ltb (status_rank w) (status_rank x) then x else w) xs

unfoldable pub worst : List JobStatus → JobStatus
unfolding worst_from
worst [] = JobStatus.healthy
worst (x ∷ xs) = worst_from x xs

pub record JobRef : Type 0 where
  pub id : Uuid
  pub status : JobStatus

-- A row of the join: a server or a cluster, with the user or namespace and the job, if there is one. `j.status` is
-- NULL with the job only.
pub record Row : Type 0 where
  pub id : Uuid
  pub part : Option ℕ
  pub job : Option JobRef

-- The text "unknown", for a job without a user.
abbrev pub unknown_part : ℕ
unknown_part = 0

abbrev pub part_of : Option ℕ → ℕ
part_of none = unknown_part
part_of (some p) = p

pub record Part : Type 0 where
  pub name : ℕ
  pub jobs : List JobRef

pub record Group : Type 0 where
  pub id : Uuid
  pub parts : List Part

-- d["users"].setdefault(name, []).append(job)
unfoldable pub put_job : ℕ → JobRef → List Part → List Part
put_job name j [] = record { name = name; jobs = j ∷ [] } ∷ []
put_job name j (p ∷ ps) =
    let rest = p ∷ put_job name j ps in
    if p.name == name then record p { jobs = p.jobs ++ (j ∷ []) } ∷ ps else rest

abbrev pub add_to : Row → Option JobRef → List Part → List Part
add_to r none ps = ps
add_to r (some j) ps = put_job (part_of r.part) j ps

-- srv.setdefault(id, ...), and the job of the row.
unfoldable pub put_row : Row → List Group → List Group
unfolding put_job
put_row r [] = record { id = r.id; parts = add_to r r.job [] } ∷ []
put_row r (g ∷ gs) =
    let rest = g ∷ put_row r gs in
    if g.id == r.id then record g { parts = add_to r r.job g.parts } ∷ gs else rest

unfoldable pub put_rows : List Row → List Group → List Group
unfolding put_row
put_rows [] gs = gs
put_rows (r ∷ rs) gs = put_rows rs (put_row r gs)

abbrev pub job_statuses : List JobRef → List JobStatus
job_statuses js = map (λ (j : JobRef). j.status) js

abbrev pub part_status : Part → JobStatus
part_status p = worst (job_statuses p.jobs)

-- The status of `roll_srv` and `roll_cl`.
abbrev pub group_status : Group → JobStatus
group_status g = worst (map part_status g.parts)

pub record Tree : Type 0 where
  pub servers : List Group
  pub clusters : List Group
  pub heartbeat_only : List JobRef
  pub status : JobStatus

unfoldable pub topology : List Row → List Row → List JobRef → Tree
unfolding worst put_rows
topology server_rows cluster_rows orphans =
    let servers = put_rows server_rows [] in
    let clusters = put_rows cluster_rows [] in
    record {
      servers = servers;
      clusters = clusters;
      heartbeat_only = orphans;
      status = worst (map group_status (servers ++ clusters) ++ job_statuses orphans);
    }
