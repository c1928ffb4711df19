-- ===== src/Samples/Runs.antt =====
-- A heartbeat, a batch of an agent's reports, and what they do.
use jobwatch.Prelude.{
  arith, Mem, ◌≡◌, refl, true, false, none, some, List, [], ◌∷◌, ◌++◌, head, tail, take,
}
use jobwatch.Db.{given}
use jobwatch.Ingest.{fail, success, ExecEvent}
use jobwatch.Processor.{process}
use jobwatch.Http.{ok}
use jobwatch.Ratelimit.{check, script}
use jobwatch.Fleet.{AgentPrincipal}
use jobwatch.Reports.{
  JobLink, Owner, HeartbeatBody, heartbeat_event, Sink, emit, emit_all, Entry, resolve, heartbeat,
  progress, of_run, AgentEvent, find_link,
}
use jobwatch.Reports.Events.{sort_events, store_progress, see_agent, keep_progress, events}
use jobwatch.Reports.Own.{Post, Says, heartbeats, heartbeat-Owns}
use jobwatch.Reports.Batch.{Sends, events-published}
use jobwatch.Reports.Shadow.{progress-shadows}
use jobwatch.Samples.{tables, env}
use jobwatch.Samples.Memory.{memory, memory-IsRedis}

abbrev link : JobLink
link = record { id = 1; org_id = 7; heartbeat_token = 50; fingerprint = some 60; paused = false }

abbrev said : HeartbeatBody
said = record {
  status = success;
  execution_id = some (given 6);
  sequence = 2;
  agent_ts = none;
  duration_ms = none;
  exit_code = none;
  host = none;
  stdout_tail = none;
  stderr_tail = none;
}

abbrev sink : Sink
sink = record { connected = true; published = []; db = tables }

abbrev entry : Entry (memory Owner)
entry = record { links = link ∷ []; cached = λ k. none; hits = λ k. []; sink = sink }

let_in : (heartbeat (memory Owner) (λ ev. env 5000000) 5000000 9 600 50 said entry).0 ≡ ok tt
unfolding heartbeat resolve check script
let_in = refl

-- The same job was heard of two seconds before, so its owner is cached.
abbrev posted : Post
posted = record { now = 3000000; client = 9; token = 50; body = said }

abbrev before : Entry (memory Owner)
before = heartbeats (memory Owner) (λ ev. env 5000000) 600 (posted ∷ []) entry

let_in_again : (heartbeat (memory Owner) (λ ev. env 5000000) 5000000 9 600 50 said before).0 ≡ ok tt
unfolding heartbeat resolve check script
let_in_again = refl

still_on : before.sink.connected ≡ true
unfolding heartbeat resolve check script emit
still_on = refl

heartbeat-Owns_example :
    (j : JobLink) × Mem j (link ∷ [])
    × (j.heartbeat_token ≡ 50)
    × ((ev : ExecEvent) × ((heartbeat
            (memory Owner)
            (λ ev. env 5000000)
            5000000
            9
            600
            50
            said
            before).1.sink.published
          ≡ before.sink.published ++ (ev ∷ []))
        × Says 5000000 9 j said ev)
heartbeat-Owns_example =
    heartbeat-Owns (memory Owner) (λ ev. env 5000000) 600 (posted ∷ []) 5000000 9 50 said entry
      (memory-IsRedis Owner) (λ t k. refl) (omega arith, omega arith) still_on let_in_again

abbrev agent : AgentPrincipal
agent = record { agent_id = 3; org_id = 7 }

abbrev stranger : AgentPrincipal
stranger = record { agent_id = 4; org_id = 8 }

abbrev by_token : AgentEvent
by_token = record { job_token = some 50; fingerprint = none; kind = of_run success; body = said }

abbrev unknown : AgentEvent
unknown = record by_token { job_token = none }

abbrev reporting : AgentEvent
reporting = record by_token { kind = progress }

abbrev batch : List AgentEvent
batch = by_token ∷ unknown ∷ reporting ∷ []

abbrev after_batch : AgentPrincipal → Sink
after_batch a =
    emit_all (λ ev. env 5000000) (sort_events 5000000 a (link ∷ []) batch).out
      (record sink {
        db = see_agent 5000000 a.agent_id (store_progress 5000000 a (reporting ∷ []) tables);
      })

of_agent :
    events (λ ev. env 5000000) 5000000 agent (link ∷ []) batch sink ≡ ok ((2, 1), after_batch agent)
unfolding events keep_progress sort_events find_link
of_agent = refl

of_stranger :
    events (λ ev. env 5000000) 5000000 stranger (link ∷ []) batch sink
    ≡ ok ((0, 3), after_batch stranger)
unfolding events keep_progress sort_events find_link
of_stranger = refl

events-published_example :
    (out : List ExecEvent) × ((after_batch agent).published ≡ [] ++ out)
    × Sends 5000000 agent (link ∷ []) (take 500 batch) out 2 1
events-published_example =
    events-published (λ ev. env 5000000) 5000000 agent (link ∷ []) batch sink (after_batch agent) 2
      1 refl of_agent

-- A run of organisation 7 that a report of organisation 8 named.
abbrev failed : ExecEvent
failed = heartbeat_event 6000000 9 (7, 1) (record said { status = fail })

progress-shadows_example :
    process (env 6000000) failed (after_batch stranger).db ≡ (none, (after_batch stranger).db)
unfolding heartbeat_event
progress-shadows_example =
    progress-shadows (λ ev. env 5000000) 5000000 stranger (link ∷ []) batch sink
      (after_batch stranger) (0, 3) reporting (given 6) (env 6000000) failed refl of_stranger
      (tail (tail head)) refl refl refl refl
