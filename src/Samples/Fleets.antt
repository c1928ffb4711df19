-- ===== src/Samples/Fleets.antt =====
-- A host that enrolls, twice, and agents whose keys change.
use jobwatch.Prelude.{arith, List, any_of, ◌≡◌, refl, false, none, some, [], ◌∷◌}
use jobwatch.Prelude.Int.{pos}
use jobwatch.Http.{Reply, ok, raised}
use jobwatch.Ratelimit.{check, script}
use jobwatch.Access.{Text, fast, verify_secret, at_least, needs}
use jobwatch.Fleet.{ServerRow, AgentRow, linux, active, Invite, Cached, EnrollIn, Enrolled, Fleet}
use jobwatch.Fleet.Handlers.{enroll, rotate, rotated_fleet, revoke, revoked_fleet, agent_principal}
use jobwatch.Fleet.Revoked.{Asked, requests, revoke_refuses, rotate-accepted}
use jobwatch.Fleet.Stale.{reenroll-stale}
use jobwatch.Fleet.Metrics.{
  HostMetric, MetricsBody, HasShares, is_io_wait, infra, metrics, metric_of, metrics-no_io_wait,
}
use jobwatch.Samples.Memory.{memory, memory-IsRedis, toy}
use jobwatch.Samples.Callers.{ada}

abbrev old_key : Text
old_key = 1 ∷ []

abbrev new_key : Text
new_key = 1 ∷ 2 ∷ []

abbrev host : AgentRow
host = record {
  id = 3;
  org_id = 7;
  kind = linux;
  host_id = 40;
  name = 41;
  version = 1;
  key_hash = fast 1;
  status = active;
  last_seen_at = none;
  skew_ms = pos 0;
  revoked_at = none;
  heartbeat_interval_s = 60;
}

abbrev fleet : Fleet toy (memory Invite) (memory Cached)
fleet = record {
  agents = host ∷ [];
  servers = [];
  audit_logs = [];
  invites = λ k. some (record { org_id = 7; name = none }, 100);
  cached = λ k. some ((fast 1, 7), 100);
  enroll_hits = λ k. [];
  agent_hits = λ k. [];
}

abbrev report : EnrollIn
report = record { bootstrap_token = 9; name = 41; host_id = 40; kind = linux; version = 2 }

abbrev enrolled : Enrolled
enrolled = record { agent_id = 3; agent_key = new_key }

abbrev first : Reply Enrolled × Fleet toy (memory Invite) (memory Cached)
first = enroll toy (memory Invite) (memory Cached) 5000000 60 report new_key 8 80 fleet

first_ok : first.0 ≡ ok enrolled
unfolding enroll check script
first_ok = refl

different : verify_secret toy new_key (fast 1) ≡ false
unfolding verify_secret
different = refl

reenroll-stale_example :
    (agent_principal toy (memory Invite) (memory Cached) 6000000 600 3 new_key first.1).0
    ≡ raised 401
reenroll-stale_example =
    reenroll-stale toy (memory Invite) (memory Cached) 5000000 6000000 60 600 report new_key 8 80
      fleet enrolled (fast 1, 7) first_ok refl different

rotated :
    rotate toy (memory Invite) (memory Cached) ada 3 new_key fleet
    ≡ ok (rotated_fleet toy (memory Invite) (memory Cached) ada 3 new_key fleet)
unfolding rotate needs at_least
rotated = refl

below_rate : (check 6000 600 []).raised ≡ none
unfolding check script
below_rate = refl

rotate-accepted_example :
    (agent_principal toy
      (memory Invite)
      (memory Cached)
      6000000
      600
      3
      new_key
      (rotated_fleet toy (memory Invite) (memory Cached) ada 3 new_key fleet)).0
    ≡ ok (record { agent_id = 3; org_id = 7 })
rotate-accepted_example =
    rotate-accepted toy (memory Invite) (memory Cached) 6000000 600 ada 3 new_key fleet
      (rotated_fleet toy (memory Invite) (memory Cached) ada 3 new_key fleet)
      (memory-IsRedis Cached) ((λ e. refl), tt) rotated below_rate

gone :
    revoke toy (memory Invite) (memory Cached) 5000000 ada 3 fleet
    ≡ ok (revoked_fleet toy (memory Invite) (memory Cached) 5000000 ada 3 fleet)
unfolding revoke needs at_least
gone = refl

-- The agent tries, and another one.
abbrev tries : List Asked
tries =
    record { now = 5500000; id = 3; key = old_key }
    ∷ record { now = 5800000; id = 4; key = new_key }
    ∷ []

revoke_refuses_example :
    (agent_principal toy (memory Invite) (memory Cached) 6000000 600 3 old_key (
      requests toy
        (memory Invite)
        (memory Cached)
        600
        tries
        (revoked_fleet toy (memory Invite) (memory Cached) 5000000 ada 3 fleet))).0
    ≡ raised 401
revoke_refuses_example =
    revoke_refuses toy (memory Invite) (memory Cached) 5000000 6000000 600 ada 3 old_key fleet
      (revoked_fleet toy (memory Invite) (memory Cached) 5000000 ada 3 fleet) tries
      (memory-IsRedis Cached) ((λ e. refl), tt) gone (omega arith, (omega arith, omega arith))

-- A host that does nothing but wait.
abbrev waiting : MetricsBody
waiting = record {
  ts = none;
  cpu_pct = some 9500;
  mem_pct = none;
  load1 = none;
  disk_pct = none;
  inode_pct = none;
  io_wait_pct = some 10000;
}

abbrev server : ServerRow
server = record { id = 80; org_id = 7; agent_id = some 3; hostname = 41 }

abbrev stored : List HostMetric
stored = metric_of 5000000 (record { agent_id = 3; org_id = 7 }) server waiting ∷ []

reported :
    metrics 5000000 (record { agent_id = 3; org_id = 7 }) waiting (server ∷ []) [] ≡ ok stored
unfolding metrics
reported = refl

metrics-no_io_wait_example :
    HasShares stored × (any_of is_io_wait (infra 6000000 80 stored) ≡ false)
metrics-no_io_wait_example =
    metrics-no_io_wait 5000000 6000000 (record { agent_id = 3; org_id = 7 }) waiting (server ∷ [])
      [] stored 80 tt refl reported
