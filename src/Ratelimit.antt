-- ===== src/Ratelimit.antt =====
-- cronsentinel/ratelimit.py: the script over one key's sorted set, and `check`. Instants are milliseconds. The expiry of
-- the key is left out: when it is due, the whole set has left the window. The member of a hit is its instant with
-- math.random() behind it, whose sequence Redis starts anew for every run of a script: it is the same each time, so hits
-- of one millisecond are one member, and a member is its instant.
pub mod Window
use jobwatch.Prelude.{
  ℕ, ◌+◌, ◌-◌, ◌≤◌, Bool, true, false, List, [], ◌∷◌, Option, none, some, All, ltb, leb, length,
  if◌then◌else◌, elem,
}

-- The answer of the script, and the set that it leaves, newest hit first.
pub record Hit : Type 0 where
  pub allowed : Bool
  pub count : ℕ
  pub hits : List ℕ

-- ZREMRANGEBYSCORE key 0 (now - win): the hits that stay.
abbrev pub live_hits : ℕ → ℕ → List ℕ → List ℕ
live_hits win now [] = []
live_hits win now (t ∷ ts) =
    let rest = live_hits win now ts in if ltb now (t + win) then t ∷ rest else rest

-- ZADD: a member that is there is not added again.
abbrev pub add_hit : ℕ → List ℕ → List ℕ
add_hit now hits = let more = now ∷ hits in if elem now hits then hits else more

unfoldable pub script : ℕ → ℕ → ℕ → List ℕ → Hit
script now win lim hits =
    let kept = live_hits win now hits in
    let n = length kept in
    if leb lim n
    then record { allowed = false; count = n; hits = kept }
    else record { allowed = true; count = n + 1; hits = add_hit now kept }

-- What `check` does for its caller: the status that it raises, and the requests that remain.
pub record Checked : Type 0 where
  pub raised : Option ℕ
  pub rl_remaining : ℕ
  pub hits : List ℕ

unfoldable pub check : ℕ → ℕ → List ℕ → Checked
unfolding script
check now limit_per_min hits =
    let r = script now 60000 limit_per_min hits in
    record {
      raised = if r.allowed then none else some 429;
      rl_remaining = limit_per_min - r.count;
      hits = r.hits;
    }

-- The set of a key and the instants of the requests that were let through, both newest first.
pub record Served : Type 0 where
  pub hits : List ℕ
  pub let_through : List ℕ

abbrev pub add_request : ℕ → Option ℕ → List ℕ → List ℕ
add_request now none log = now ∷ log
add_request now (some status) log = log

-- Requests under one key, the newest first.
unfoldable pub serve : ℕ → List ℕ → Served
unfolding check
serve limit_per_min [] = record { hits = []; let_through = [] }
serve limit_per_min (now ∷ earlier) =
    let before = serve limit_per_min earlier in
    let r = check now limit_per_min before.hits in
    record { hits = r.hits; let_through = add_request now r.raised before.let_through }
