-- ===== src/Redis.antt =====
-- The commands GET, SETEX and DELETE of Redis, as routers/agents.py and routers/heartbeat.py use them: a service, so an
-- interface with what is documented of it. Keys are numbers, instants and lifetimes are in seconds.
use jobwatch.Prelude.{ℕ, ◌+◌, ◌≤◌, ◌≡◌, Option, none, some, ltb, ◌==◌, if◌then◌else◌}

pub record Redis (V : Type 0) : Type 1 where
  pub State : Type 0
  pub get : ℕ → ℕ → State → Option V
  pub setex : ℕ → ℕ → ℕ → V → State → State
  pub delete : ℕ → State → State

-- A value is there until its lifetime is over or its key is deleted, and what is not there does not come by itself.
pub record IsRedis {V : Type 0} (R : Redis V) : Type 0 where
  pub get-setex :
      (now later key k ttl : ℕ) (v : V) (s : R.State)
      → now ≤ later
      → R.get later k (R.setex now key ttl v s)
        ≡ (if k == key then (if ltb later (now + ttl) then some v else none) else R.get later k s)
  pub get-delete :
      (now key k : ℕ) (s : R.State)
      → R.get now k (R.delete key s) ≡ (if k == key then none else R.get now k s)
