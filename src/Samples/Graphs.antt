-- ===== src/Samples/Graphs.antt =====
-- Jobs that depend on one another, and a host with users.
use jobwatch.Prelude.{◌≡◌, ◌↔◌, refl, true, none, some, List, [], ◌∷◌}
use jobwatch.Status.{JobStatus}
use jobwatch.Db.{Job}
use jobwatch.Http.{ok, raised}
use jobwatch.Access.{at_least, needs}
use jobwatch.Dependencies.{
  Dependency, Graph, add_dependency, insert_dependency, would_cycle, up, up_rounds, fresh,
}
use jobwatch.Dependencies.Reach.{Reaches, direct}
use jobwatch.Dependencies.Rounds.{would_cycle_iff}
use jobwatch.Dependencies.Acyclic.{IsSound, IsAcyclic, add_dependency-IsSound}
use jobwatch.Topology.{JobRef, Row}
use jobwatch.Samples.{backup}
use jobwatch.Samples.Callers.{ada}

abbrev edge : Dependency
edge = record { org_id = 7; job_id = 1; depends_on_job_id = 2 }

abbrev jobs : List Job
jobs = backup ∷ record backup { id = 2 } ∷ record backup { id = 3 } ∷ []

abbrev graph : Graph
graph = record { jobs = jobs; job_dependencies = []; audit_logs = [] }

empty-IsSound : IsSound graph
unfolding IsSound IsAcyclic
empty-IsSound org a (direct d m e f) = elim m [ ]
empty-IsSound org a (Reaches.via d m e r) = elim m [ ]

abbrev with_edge : Graph
with_edge = insert_dependency ada 1 2 graph

added : add_dependency ada 1 2 graph ≡ ok with_edge
unfolding add_dependency needs at_least would_cycle up up_rounds fresh
added = refl

add_dependency-IsSound_example : IsSound with_edge
add_dependency-IsSound_example = add_dependency-IsSound ada 1 2 graph with_edge empty-IsSound added

-- The way back is refused.
refused : add_dependency ada 2 1 with_edge ≡ raised 409
unfolding add_dependency needs at_least would_cycle up up_rounds fresh
refused = refl

would_cycle_iff_example : (would_cycle (edge ∷ []) 2 1 ≡ true) ↔ Reaches (edge ∷ []) 1 2
would_cycle_iff_example = would_cycle_iff (edge ∷ []) 2 1

abbrev broken : JobRef
broken = record { id = 1; status = JobStatus.missed }

abbrev host_row : Row
host_row = record { id = 4; part = none; job = some broken }
