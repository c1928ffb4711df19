-- ===== src/Reconciler/Pass/Flips.antt =====
-- The two queries of `settle` in workers/reconciler.py for jobs that need a pass although no slot changed.
use jobwatch.Prelude.{
  ℕ, ◌+◌, ◌*◌, ◌-◌, ltb, ◌≡◌, ◌≢◌, ◌⊎◌, inl, inr, refl, sym, ap, ◌∙◌, Bool, true, false, Option,
  none, some, arith, Option-cases,
}
use jobwatch.Status.{JobState, UnknownReason, Facts, derive, eq_state}
use jobwatch.Db.{Job, Agent, Db, agent_of}
use jobwatch.Schedule.{seconds}
use jobwatch.JobState.{interval_or, compute, facts_of, agent_offline}
use jobwatch.JobState.Stored.{Says}
use jobwatch.Reconciler.Pass.{
  pause_flipped, agent_flipped, agent_flips, selects, sql_ne, sql_and, unknown_as, reason_is,
  went_quiet,
}

ne-null : (x : Option Bool) → selects (sql_ne x none) ≡ false
ne-null none = refl
ne-null (some true) = refl
ne-null (some false) = refl

null-reason :
    (r : UnknownReason) (j : Job)
    → j.job_state ≡ JobState.unknown
    → j.unknown_reason ≡ none
    → unknown_as r j ≡ none
null-reason r j state reason = rw (state, reason) refl

agent_flips-null :
    (now : ℕ) (j : Job) (o : Option Agent)
    → unknown_as UnknownReason.agent_offline j ≡ none
    → agent_flips now j o ≡ false
agent_flips-null now j none h = refl
agent_flips-null now j (some a) h =
    ap (λ u. selects (sql_ne (went_quiet now a) u)) h ∙ ne-null (went_quiet now a)

-- A row whose state is unknown but that has no reason, as a new row has, is selected by neither query: not
-- when the job is paused, and not when its agent is offline.
pub no_reason-unnoticed :
    (db : Db) (now : ℕ) (j : Job)
    → j.job_state ≡ JobState.unknown
    → j.unknown_reason ≡ none
    → (pause_flipped j ≡ false) × (agent_flipped db now j ≡ false)
unfolding pause_flipped agent_flipped
no_reason-unnoticed db now j state reason = (
  ap (λ u. selects (sql_ne (some j.paused) u)) (null-reason UnknownReason.paused j state reason)
      ∙ ne-null (some j.paused),
  agent_flips-null now j (agent_of db j) (null-reason UnknownReason.agent_offline j state reason),
)

-- `unknown_as` of the state and the reason that a job's facts give.
abbrev shown_as : UnknownReason → Facts → Option Bool
shown_as r f = sql_and (some (eq_state (derive f).0 JobState.unknown)) (reason_is r (derive f).1)

pause-derive :
    (f : Facts) → selects (sql_ne (some f.paused) (shown_as UnknownReason.paused f)) ≡ false
unfolding derive
pause-derive f = ground arith

agent-derive :
    (f : Facts)
    → f.paused ≡ false
    → selects (sql_ne (some f.agent_offline) (shown_as UnknownReason.agent_offline f)) ≡ false
unfolding derive
agent-derive f h = ground arith

unknown_as-Says :
    (r : UnknownReason) (db : Db) (now : ℕ) (j : Job)
    → Says (compute db j now) j
    → unknown_as r j ≡ shown_as r (facts_of db j now)
unfolding compute
unknown_as-Says r db now j says =
    ap (λ s. sql_and (some (eq_state s JobState.unknown)) (reason_is r j.unknown_reason)) says.state
    ∙ ap
        (λ u.
          sql_and (some (eq_state (derive (facts_of db j now)).0 JobState.unknown)) (reason_is r u))
        says.reason

shifted_test : (seen d now : ℕ) → ltb (seen + d) now ≡ ltb d (now - seen)
shifted_test seen d now = ground arith

interval_or_lem : (hb : ℕ) → hb ≢ 0 → interval_or hb ≡ hb
interval_or_lem hb h = ground arith

quiet-offline :
    (now : ℕ) (a : Agent)
    → a.heartbeat_interval_s ≢ 0
    → (went_quiet now a ≡ none) ⊎ (went_quiet now a ≡ some (agent_offline (some a) now))
unfolding agent_offline
quiet-offline now a interval = elim (Option-cases a.last_seen_at) [
  | inl e ↦ inl (rw e refl)
  | inr (seen, e) ↦ inr (
      rw e (
        ap some (
          shifted_test seen (seconds (a.heartbeat_interval_s * 3)) now
          ∙ ap (λ hb. ltb (seconds (hb * 3)) (now - seen))
              (sym (interval_or_lem a.heartbeat_interval_s interval)))))
]

-- A row that says what is computed for it is not selected: a pass answers the queries that asked for it. The
-- agent's interval must not be 0, and the job not paused, for the second query.
pub flips-Says :
    (db : Db) (now : ℕ) (j : Job) (a : Agent)
    → Says (compute db j now) j
    → agent_of db j ≡ some a
    → a.heartbeat_interval_s ≢ 0
    → (pause_flipped j ≡ false) × (j.paused ≡ false → agent_flipped db now j ≡ false)
unfolding pause_flipped agent_flipped facts_of
flips-Says db now j a says found interval = (
  ap (λ u. selects (sql_ne (some j.paused) u)) (unknown_as-Says UnknownReason.paused db now j says)
      ∙ pause-derive (facts_of db j now),
  λ active.
      ap (agent_flips now j) found
      ∙ ap (λ u. selects (sql_ne (went_quiet now a) u))
          (unknown_as-Says UnknownReason.agent_offline db now j says)
      ∙ elim (quiet-offline now a interval) [
        | inl null ↦ rw null refl
        | inr q ↦
            ap (λ x. selects (sql_ne x (shown_as UnknownReason.agent_offline (facts_of db j now))))
              (q ∙ ap (λ o. some (agent_offline o now)) (sym found))
            ∙ agent-derive (facts_of db j now) active
      ],
)
