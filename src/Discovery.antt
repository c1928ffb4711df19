-- ===== src/Discovery.antt =====
-- `discovery` of cronsentinel/routers/agents.py: the jobs that an agent found on its host. croniter (`validate`,
-- `next_run`) and new identifiers and tokens are arguments; the organisation has a
-- workspace, and its plan a row of plan_limits.
pub mod Decimal
pub mod Names
pub mod Cap
use jobwatch.Prelude.{
  ℕ, zero, suc, ◌+◌, ◌-◌, ◌/◌, ◌%◌, Bool, true, false, ◌&&◌, not, Option, none, some, List, [], ◌∷◌,
  ◌++◌, ◌==◌, ltb, leb, if◌then◌else◌, any_of, find_first, update_where, count_where, length,
  coalesce, is_some,
}
use jobwatch.Status.{JobStatus}
use jobwatch.Db.{Uuid, Agent}
use jobwatch.Access.{Text, eq_text, or_else}

-- The columns of jobs that a discovery reads and writes.
pub record JobRow : Type 0 where
  pub id : Uuid
  pub org_id : Uuid
  pub workspace_id : Uuid
  pub name : Text
  pub fingerprint : Option ℕ
  pub heartbeat_token : ℕ
  pub schedule_expr : Option ℕ
  pub command : ℕ
  pub run_as_user : ℕ
  pub working_dir : Option ℕ
  pub server_id : Option Uuid
  pub status : JobStatus
  pub next_expected_at : Option ℕ

-- An empty schedule is `none`.
pub record DiscoveredJob : Type 0 where
  pub fingerprint : ℕ
  pub name : Text
  pub schedule : Option ℕ
  pub command : ℕ
  pub user : ℕ
  pub working_dir : Option ℕ

-- str(n), for a number that is not above the fuel.
unfoldable pub digits : ℕ → ℕ → Text
digits zero n = []
digits (suc fuel) n =
    let more = digits fuel (n / 10) ++ ((48 + n % 10) ∷ []) in
    if ltb n 10 then (48 + n) ∷ [] else more

abbrev pub dash : ℕ
dash = 45

-- j.name, and then f"{j.name}-{k}" from 2 on.
unfoldable pub name_at : Text → ℕ → Text
unfolding digits
name_at base k = if k == 1 then base else base ++ (dash ∷ digits (suc k) k)

-- SELECT 1 FROM jobs WHERE workspace_id=:w AND name=:n
abbrev pub is_named : Uuid → Text → JobRow → Bool
is_named ws name j = j.workspace_id == ws && eq_text j.name name

unfoldable pub taken : Uuid → Text → List JobRow → Bool
taken ws name rows = any_of (is_named ws name) rows

-- The `while` loop from a number on. More rounds than there are jobs are enough.
unfoldable pub free_name : ℕ → Uuid → Text → ℕ → List JobRow → Text
unfolding name_at taken
free_name zero ws base k rows = name_at base k
free_name (suc fuel) ws base k rows =
    let next = free_name fuel ws base (suc k) rows in
    if taken ws (name_at base k) rows then next else name_at base k

abbrev pub is_found : Uuid → ℕ → JobRow → Bool
is_found org fp j = j.org_id == org && elim j.fingerprint [ none ↦ false | some f ↦ f == fp ]

-- `sched`: a schedule that croniter does not read is dropped.
abbrev pub valid_schedule : (ℕ → Bool) → Option ℕ → Option ℕ
valid_schedule validate none = none
valid_schedule validate (some s) = if validate s then some s else none

-- The UPDATE of a job that is known.
abbrev pub refresh : DiscoveredJob → Option Uuid → Option ℕ → JobRow → JobRow
refresh j server sched r = record r {
  command = j.command;
  run_as_user = j.user;
  working_dir = j.working_dir;
  server_id = or_else server r.server_id;
  schedule_expr = or_else sched r.schedule_expr;
}

-- tokens[fingerprint] = token
unfoldable pub put_token : ℕ → ℕ → List (ℕ × ℕ) → List (ℕ × ℕ)
put_token fp token [] = (fp, token) ∷ []
put_token fp token ((k, t) ∷ rest) =
    let more = (k, t) ∷ put_token fp token rest in if k == fp then (fp, token) ∷ rest else more

-- What the loop carries: the jobs, the tokens, and the number of jobs that it counts.
pub record Found : Type 0 where
  pub rows : List JobRow
  pub tokens : List (ℕ × ℕ)
  pub n : ℕ

-- The limit of the plan; `none` is no limit.
abbrev pub is_full : Option ℕ → ℕ → Bool
is_full none n = false
is_full (some max_jobs) n = leb max_jobs n

module _ (validate : ℕ → Bool) (next_run : ℕ → ℕ) (make : ℕ → Uuid × ℕ) (org ws : Uuid)
    (server : Option Uuid) (max_jobs : Option ℕ) where
  -- The INSERT, with what the database and `secrets` make up for the n-th job.
  abbrev pub new_row : DiscoveredJob → Option ℕ → Found → JobRow
  new_row j sched f = record {
    id = (make f.n).0;
    org_id = org;
    workspace_id = ws;
    name = free_name (suc (length f.rows)) ws j.name 1 f.rows;
    fingerprint = some j.fingerprint;
    heartbeat_token = (make f.n).1;
    schedule_expr = sched;
    command = j.command;
    run_as_user = j.user;
    working_dir = j.working_dir;
    server_id = server;
    status = if is_some sched then JobStatus.healthy else JobStatus.unknown;
    next_expected_at = elim sched [ none ↦ none | some s ↦ some (next_run s) ];
  }

  abbrev pub discover_known : DiscoveredJob → Option ℕ → Option JobRow → Found → Found
  discover_known j sched (some row) f = record f {
    rows = update_where (λ r. r.id == row.id) (refresh j server sched) f.rows;
    tokens = put_token j.fingerprint row.heartbeat_token f.tokens;
  }
  discover_known j sched none f =
      let added : Found = record {
        rows = f.rows ++ (new_row j sched f ∷ []);
        tokens = put_token j.fingerprint (make f.n).1 f.tokens;
        n = f.n + 1;
      } in
      if is_full max_jobs f.n then f else added

  -- The body of the loop.
  unfoldable pub discover : DiscoveredJob → Found → Found
  unfolding free_name put_token
  discover j f =
      discover_known j (valid_schedule validate j.schedule)
        (find_first (is_found org j.fingerprint) f.rows) f

  unfoldable pub discover_all : List DiscoveredJob → Found → Found
  unfolding discover
  discover_all [] f = f
  discover_all (j ∷ js) f = discover_all js (discover j f)

  -- The handler, for an agent that is seen now: the jobs with the tokens that it answers, and the agents.
  unfoldable pub discovery :
      Uuid → ℕ → List DiscoveredJob → List JobRow → List Agent → Found × List Agent
  unfolding discover_all
  discovery agent now js rows agents = (
    discover_all js (record {
      rows = rows;
      tokens = [];
      n = count_where (λ (r : JobRow). r.org_id == org) rows;
    }),
    update_where (λ (a : Agent). a.id == agent) (λ a. record a { last_seen_at = some now }) agents,
  )
