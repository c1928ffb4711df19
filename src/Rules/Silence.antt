-- ===== src/Rules/Silence.antt =====
-- Which announcements of job_state.py and processor.py make a rule of alerting/rules.py fire.
use jobwatch.Prelude.{
  ℕ, ◌≡◌, ◌≢◌, ◌⊎◌, inl, inr, refl, sym, ap, ◌∙◌, Bool, true, false, ◌||◌, Option, none, some,
  some-injective, arith, Bool-cases, is_some,
}
use jobwatch.Status.{JobState, JobStatus, Facts, derive, is_alertable, eq_status}
use jobwatch.JobState.Stored.{recompute_state-row}
use jobwatch.Status.Derive.{derive-unknown_masks, shown_status, legacy_status-Agrees}
use jobwatch.Db.{Job, Db, find_job}
use jobwatch.JobState.{
  StatusEvent, Computed, compute, facts_of, recovered, recompute_state, recompute_row,
  recompute_found, unchanged,
}
use jobwatch.Ingest.{ExecEvent, Env}
use jobwatch.Processor.{process, handle_one, changed_only}
use jobwatch.Processor.Wire.{is_processed, process-is_processed}
use jobwatch.Rules.{
  Rule, JobCtx, Condition, on_failed, on_missed, on_late, on_runtime_exceeded,
  on_consecutive_failures, condition_fires, condition_holds, suppressed_unknown,
}

-- A rule fires on an announcement.
abbrev pub fires : Rule → JobCtx → StatusEvent → Bool
fires rule job ev =
    condition_fires rule ev.prev_status ev.new_status job ev.new_state ev.unknown_reason

row-announced :
    (id org now : ℕ) (db : Db) (j : Job) (c : Computed) (ev : StatusEvent)
    → (recompute_row id org now db j c).0 ≡ some ev
    → (ev.new_state ≡ some c.state) × (ev.new_status ≡ c.legacy)
unfolding recompute_row
row-announced id org now db j c ev h = elim (Bool-cases (unchanged c j)) [
  | inl same ↦ absurd (let q = rw same at h in cc)
  | inr new ↦
      let e = some-injective _ _ (rw new at h) in
      (
        ap (λ (v : StatusEvent). v.new_state) (sym e),
        ap (λ (v : StatusEvent). v.new_status) (sym e),
      )
]

found-announced :
    (id org now : ℕ) (db : Db) (o : Option Job) (ev : StatusEvent)
    → (recompute_found id org now db o).0 ≡ some ev
    → (j : Job) × (ev.new_state ≡ some (compute db j now).state)
      × (ev.new_status ≡ (compute db j now).legacy)
found-announced id org now db none ev h = cc
found-announced id org now db (some j) ev h =
    let (s, l) = row-announced id org now db j (compute db j now) ev h in (j, s, l)

compute-shown :
    (db : Db) (j : Job) (now : ℕ)
    → ((compute db j now).state ≡ (derive (facts_of db j now)).0)
      × ((compute db j now).legacy ≡ shown_status (facts_of db j now) (recovered db j.id))
unfolding compute shown_status facts_of
compute-shown db j now = (refl, refl)

-- What a state pass announces of a job: the state and the status that its facts give.
pub record IsOfFacts (f : Facts) (recovering : Bool) (ev : StatusEvent) : Type 0 where
  pub state : ev.new_state ≡ some (derive f).0
  pub status : ev.new_status ≡ shown_status f recovering

pass-IsOfFacts :
    (id org now : ℕ) (db : Db) (ev : StatusEvent)
    → (recompute_state id org now db).0 ≡ some ev
    → (f : Facts) × (recovering : Bool) × IsOfFacts f recovering ev
unfolding recompute_state
pass-IsOfFacts id org now db ev h =
    let (j, s, l) = found-announced id org now db (find_job id db) ev h in
    let (state, legacy) = compute-shown db j now in
    (
      facts_of db j now,
      recovered db j.id,
      record { state = s ∙ ap some state; status = l ∙ legacy },
    )

-- A message on jobstatus.*: from a state pass, or from an execution event.
pub data Announced (ev : StatusEvent) : Type 0 where
  by_pass : (id org now : ℕ) (db : Db) → (recompute_state id org now db).0 ≡ some ev → Announced ev
  by_message :
      (env : Env) (msg : ExecEvent) (db : Db) → (handle_one env msg db).0 ≡ some ev → Announced ev

changed_only-same_event :
    (o : Option StatusEvent) (ev : StatusEvent) → changed_only o ≡ some ev → o ≡ some ev
changed_only-same_event none ev h = cc
changed_only-same_event (some res) ev h =
    elim (Bool-cases (eq_status res.prev_status res.new_status)) [
      | inl same ↦ absurd (let q = rw same at h in cc)
      | inr new ↦ (rw new at h)
    ]

processed_no_timeout : (s : JobStatus) → is_processed s ≡ true → s ≢ JobStatus.timeout
processed_no_timeout s h = ground arith

Announced-no_timeout : (ev : StatusEvent) → Announced ev → ev.new_status ≢ JobStatus.timeout
unfolding handle_one
Announced-no_timeout ev (by_pass id org now db h) =
    let (f, recovering, of) = pass-IsOfFacts id org now db ev h in
    λ t. (legacy_status-Agrees f recovering).never_timeout (sym of.status ∙ t)
Announced-no_timeout ev (by_message env msg db h) =
    processed_no_timeout ev.new_status
      (process-is_processed env msg db ev (changed_only-same_event (process env msg db).0 ev h))

timeout-silent :
    (rule : Rule) (job : JobCtx) (new : JobStatus)
    → new ≢ JobStatus.timeout
    → condition_holds rule new job on_runtime_exceeded ≡ false
unfolding condition_holds
timeout-silent rule job new h = ground arith

fires_of_holds :
    (rule : Rule) (job : JobCtx) (ev : StatusEvent)
    → condition_holds rule ev.new_status job rule.condition ≡ false
    → fires rule job ev ≡ false
unfolding condition_fires
fires_of_holds rule job ev h =
    elim (Bool-cases (is_some (suppressed_unknown ev.new_state ev.unknown_reason))) [
      | inl t ↦ rw t refl
      | inr n ↦ rw n h
    ]

-- A rule on an exceeded runtime fires on no message that either producer announces.
pub runtime_exceeded-silent :
    (rule : Rule) (job : JobCtx) (ev : StatusEvent)
    → rule.condition ≡ on_runtime_exceeded
    → Announced ev
    → fires rule job ev ≡ false
runtime_exceeded-silent rule job ev cond announced = fires_of_holds rule job ev (
    ap (condition_holds rule ev.new_status job) cond
    ∙ timeout-silent rule job ev.new_status (Announced-no_timeout ev announced))

unknown-silent :
    (rule : Rule) (job : JobCtx) (ev : StatusEvent)
    → ev.new_state ≡ some JobState.unknown
    → fires rule job ev ≡ false
unfolding condition_fires suppressed_unknown
unknown-silent rule job ev h = rw h refl

-- The conditions on bad news.
abbrev pub is_alarm : Condition → Bool
is_alarm on_failed = true
is_alarm on_missed = true
is_alarm on_late = true
is_alarm on_runtime_exceeded = true
is_alarm on_consecutive_failures = true
is_alarm _ = false

alarm-cases :
    (rule : Rule) (job : JobCtx) (new : JobStatus) (c : Condition)
    → is_alarm c ≡ true
    → condition_holds rule new job c ≡ true
    → (new ≡ JobStatus.failed)
      ⊎ (new ≡ JobStatus.missed)
      ⊎ (new ≡ JobStatus.late)
      ⊎ (new ≡ JobStatus.timeout)
unfolding condition_holds
alarm-cases rule job JobStatus.failed c a h = inl refl
alarm-cases rule job JobStatus.missed c a h = inr (inl refl)
alarm-cases rule job JobStatus.late c a h = inr (inr (inl refl))
alarm-cases rule job JobStatus.timeout c a h = inr (inr (inr refl))
alarm-cases rule job JobStatus.unknown c a h = absurd (ground arith)
alarm-cases rule job JobStatus.healthy c a h = absurd (ground arith)
alarm-cases rule job JobStatus.running c a h = absurd (ground arith)
alarm-cases rule job JobStatus.recovered c a h = absurd (ground arith)
alarm-cases rule job JobStatus.paused c a h = absurd (ground arith)

fires-holds :
    (rule : Rule) (job : JobCtx) (ev : StatusEvent)
    → fires rule job ev ≡ true
    → condition_holds rule ev.new_status job rule.condition ≡ true
fires-holds rule job ev h =
    elim (Bool-cases (condition_holds rule ev.new_status job rule.condition)) [
      | inl t ↦ t
      | inr n ↦ absurd (let q = fires_of_holds rule job ev n in cc)
    ]

-- Where a rule on bad news fires on what a state pass announces, the announced state is late or failing.
pub fires-is_alertable :
    (rule : Rule) (job : JobCtx) (id org now : ℕ) (db : Db) (ev : StatusEvent)
    → (recompute_state id org now db).0 ≡ some ev
    → is_alarm rule.condition ≡ true
    → fires rule job ev ≡ true
    → (s : JobState) × (ev.new_state ≡ some s) × (is_alertable s ≡ true)
fires-is_alertable rule job id org now db ev h alarm fired =
    let (f, recovering, of) = pass-IsOfFacts id org now db ev h in
    let agrees = legacy_status-Agrees f recovering in
    (
      (derive f).0,
      of.state,
      elim (alarm-cases rule job ev.new_status rule.condition alarm
          (fires-holds rule job ev fired)) [
            | inl e ↦ ap is_alertable (agrees.failed_state (sym of.status ∙ e))
            | inr (inl e) ↦ ap is_alertable (agrees.missed_state (sym of.status ∙ e))
            | inr (inr (inl e)) ↦ ap is_alertable (agrees.late_state (sym of.status ∙ e))
            | inr (inr (inr e)) ↦ absurd (agrees.never_timeout (sym of.status ∙ e))
          ],
    )

-- No rule fires on what a state pass announces of a job that is paused or whose agent is offline, whatever its
-- slots and runs say: an outage of a host pages for no job.
pub masked-silent :
    (rule : Rule) (job : JobCtx) (id org now : ℕ) (db : Db) (j : Job) (ev : StatusEvent)
    → find_job id db ≡ some j
    → ((facts_of db j now).paused || (facts_of db j now).agent_offline) ≡ true
    → (recompute_state id org now db).0 ≡ some ev
    → fires rule job ev ≡ false
masked-silent rule job id org now db j ev found masked h =
    let row = row-announced id org now db j (compute db j now) ev (
      ap (λ (r : Option StatusEvent × Db). r.0) (sym (recompute_state-row id org now db j found))
      ∙ h) in
    unknown-silent rule job ev (
      row.0
      ∙ ap some ((compute-shown db j now).0 ∙ (derive-unknown_masks (facts_of db j now) masked).0))
