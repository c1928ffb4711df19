-- ===== src/Lib.antt =====
-- A model of the Python service of CronSentinel, a monitor of scheduled jobs, and what holds of it.
--
-- A schedule produces slots (expected_runs). The generator writes them ahead of time; executions that agents and
-- pings report are bound to them by the processor; the reconciler settles those that nothing came for; and both
-- end in one pass that derives a job's state from the tables and announces its changes. The alert engine reads
-- the announcements: its rules notify, and open, join and resolve incidents. The exporter and the deliveries send
-- signals to destinations outside. Paths are below apps/api/cronsentinel.
--
--   Status            states.py: `derive`, `legacy_status`; Status/Machine: state_machine.py, `transition`
--   Schedule          schedule.py, schedule_engine.py: `slots_between`, `generation_window`, `pick_slot`
--   Db                the tables of apps/api/alembic/versions, as lists of rows in one record
--   JobState          job_state.py: `recompute_state`, split where the code reads, decides and writes
--   Attach            processor.py: `attach_slot`
--   Ingest            processor.py: each SQL statement of `process`
--   Processor         processor.py: `process`; workers/exec_processor.py: `handle_one`
--   Consumer          workers/exec_processor.py: `drain`, with failures and redeliveries
--   Reconciler        workers/reconciler.py: the statements of `settle`; Reconciler/Pass: its set of jobs, `recompute`,
--                     `tick` and the batches of `main`
--   Generator         workers/schedule_generator.py: `run_batch`, `tick`
--   Rules             alerting/rules.py: `condition_fires`, `scope_matches`, `in_business_hours`, `should_repeat`
--   Engine            alerting/engine.py: `handle_status_change` (Engine/Handle); alerting/correlation.py:
--                     `find_related_incident`, `attach`; routers/incidents.py (Engine/Responders): `ack`,
--                     `resolve`, `add_note`, `list_incidents`; Engine/History: all of them on one table;
--                     Engine/Context: `_job_ctx`, `_record_change`, `signals_for_job`
--   Exporter          workers/outbound_exporter.py: `poll_slots`, `_destinations`
--   Delivery          outbound/deliver.py: `deliver_signal` and the tries of its task
--   Ratelimit         ratelimit.py: the script and `check`, over the requests under one key
--   Http, Redis       what a handler answers; the interface of the cache
--   Access            auth.py, csrf.py and the API keys of routers/org.py: `current_principal`, `require_role`, `enforce`
--   Dependencies      routers/topology.py: `add_dependency` with its check for cycles; `downstream_impact`
--   Topology          routers/topology.py: `topology`, whose statuses roll up
--   Fleet             routers/agents.py: `enroll`, `rotate`, `revoke`, `agent_principal`, `agent_heartbeat`,
--                     `metrics`; alerting/correlation.py: the anomalies of `signals_for_job` (Fleet/Metrics)
--   Reports           routers/heartbeat.py: `_resolve`, `_emit`; routers/agents.py: `events` (Reports/Events)
--   Discovery         routers/agents.py: `discovery`
--   Jobs              routers/jobs.py: `create_job`, `update_job`, `delete_job`, `list_jobs` (Jobs/Listing);
--                     alembic/versions/0009_lifecycle.py: `purge_job`
--   Notify            alerting/tasks.py: `send_notification`
--   Billing           routers/billing.py: what `webhook` does with Stripe's events; Billing/Signature: `_verify`
--   Samples           small inputs
--   Prelude           tests, keys, least elements, tables as lists
--
-- Each function has the name that it has in the source, and an SQL statement is a function from tables to
-- tables: an UPDATE is a conditional map over rows, an INSERT with ON CONFLICT DO NOTHING appends unless a row
-- has the key, ORDER BY with LIMIT 1 is the first least element. A file below a module holds what is proved of
-- it, by subject. `now()` is an argument.
--
-- Instants are microseconds as natural numbers, counted from the earliest datetime, so a subtraction that stops
-- at 0 stands where Python would overflow. Identifiers, tags and hosts are natural numbers, since the code only
-- compares them. A signed number of milliseconds is an integer and is truncated as `int` does.
--
-- Loops are recursion on lists, on the room left below the limit (`slots_loop`), or on fuel: one step for each
-- chunk, batch or try (`insert_chunks` and `recompute_batches`, where as many as there are rows are enough; `tick` of
-- Generator, where one more than the jobs to refresh are enough; `free_name`, where one more than the jobs are
-- enough; `run_task`, where the retries are).
--
-- Outside the model, as arguments: croniter with zoneinfo (`Cron`, with what is documented of it as the
-- hypotheses IsForward and IsFirst), the time zone database (`Zones`), the redaction of logs, new identifiers,
-- the replies of destinations and channels, the ledger of what was sent, SHA-256, argon2 and HMAC, JSON, the
-- collation of names, and the clock. Not modelled: locks and transactions (each function, or each round of a
-- worker's loop, is one transaction, alone), the meta and payload columns, row-level security but for the
-- organisation that a session's statements see, the endless loops of the workers with their logging, and the
-- parts of the service that are not listed above.
pub mod Prelude
pub mod Status
pub mod Schedule
pub mod Db
pub mod JobState
pub mod Attach
pub mod Ingest
pub mod Processor
pub mod Reconciler
pub mod Generator
pub mod Rules
pub mod Engine
pub mod Consumer
pub mod Exporter
pub mod Delivery
pub mod Ratelimit
pub mod Http
pub mod Access
pub mod Dependencies
pub mod Topology
pub mod Redis
pub mod Fleet
pub mod Reports
pub mod Discovery
pub mod Jobs
pub mod Notify
pub mod Billing
pub mod Samples
