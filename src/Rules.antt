-- ===== src/Rules.antt =====
-- cronsentinel/alerting/rules.py: which rule fires on a change of status, and when it may notify again. The texts
-- of identifiers, names and tags are numbers; a time of day is in microseconds since midnight.
pub mod Silence
pub mod Repeats
use Prim.Native.String.{String}
use jobwatch.Prelude.{
  ℕ, ◌+◌, ◌*◌, ◌≤◌, Bool, true, false, ◌&&◌, ◌||◌, not, Option, none, some, List, [], ◌∷◌, ltb, leb,
  if◌then◌else◌, is_some, truthy, coalesce, any_of, elem, count_where,
}
use jobwatch.Status.{JobState, UnknownReason, JobStatus}
use jobwatch.Schedule.{seconds}
use jobwatch.Db.{Uuid}
use jobwatch.Reconciler.{key_holds, opt_key_holds, key_meets}

-- BAD
abbrev pub is_bad : JobStatus → Bool
is_bad JobStatus.failed = true
is_bad JobStatus.timeout = true
is_bad JobStatus.missed = true
is_bad _ = false

-- CONDITIONS, and any other text.
pub data Condition : Type 0 where
  on_failed on_missed on_late on_runtime_exceeded on_recovered on_consecutive_failures
        on_sla_breach :
      Condition
  other : ℕ → Condition

-- The success rate is successes out of finished runs; the target is in hundredths of a percent.
pub record JobCtx : Type 0 where
  pub id : Uuid
  pub tags : List ℕ
  pub environment_id : Option Uuid
  pub workspace_id : Uuid
  pub team_id : Option Uuid
  pub consecutive_failures : ℕ
  pub success_rate : Option (ℕ × ℕ)
  pub sla_target : Option ℕ

-- `none` is an absent key.
pub record RuleScope : Type 0 where
  pub job_ids : Option (List Uuid)
  pub tags : Option (List ℕ)
  pub environment_ids : Option (List Uuid)
  pub workspace_ids : Option (List Uuid)
  pub team_ids : Option (List Uuid)

pub record BusinessHours : Type 0 where
  pub tz : Option String
  pub days : Option (List ℕ)
  pub start : Option ℕ
  pub end : Option ℕ

pub record Rule : Type 0 where
  pub id : Uuid
  pub condition : Condition
  pub scope : RuleScope
  pub count : Option ℕ
  pub channel_ids : List Uuid
  pub business_hours : Option BusinessHours
  pub repeat_interval_s : Option ℕ

-- `not sc`
abbrev pub is_everywhere : RuleScope → Bool
is_everywhere sc =
    (not (is_some sc.job_ids) && not (is_some sc.tags))
    && (not (is_some sc.environment_ids)
        && (not (is_some sc.workspace_ids) && not (is_some sc.team_ids)))

unfoldable pub scope_matches : Rule → JobCtx → Bool
scope_matches rule job =
    is_everywhere rule.scope
    || (key_holds rule.scope.job_ids job.id
        || (key_meets rule.scope.tags job.tags
            || (opt_key_holds rule.scope.environment_ids job.environment_id
                || (key_holds rule.scope.workspace_ids job.workspace_id
                    || opt_key_holds rule.scope.team_ids job.team_id))))

-- The text `unknown:...`: `some none` says no_data.
unfoldable pub suppressed_unknown :
    Option JobState → Option UnknownReason → Option (Option UnknownReason)
suppressed_unknown (some JobState.unknown) reason = some reason
suppressed_unknown _ reason = none

abbrev pub is_shown : JobStatus → JobStatus → Bool
is_shown JobStatus.failed JobStatus.failed = true
is_shown JobStatus.missed JobStatus.missed = true
is_shown JobStatus.late JobStatus.late = true
is_shown JobStatus.timeout JobStatus.timeout = true
is_shown JobStatus.recovered JobStatus.recovered = true
is_shown _ _ = false

-- success_rate < sla_target
abbrev pub breaches : Option ℕ → Option (ℕ × ℕ) → Bool
breaches (some target) (some (ok, all)) = ltb (ok * 10000) (target * all)
breaches _ _ = false

-- The chain of tests on the condition.
unfoldable pub condition_holds : Rule → JobStatus → JobCtx → Condition → Bool
condition_holds rule new job on_failed = is_shown JobStatus.failed new
condition_holds rule new job on_missed = is_shown JobStatus.missed new
condition_holds rule new job on_late = is_shown JobStatus.late new
condition_holds rule new job on_runtime_exceeded = is_shown JobStatus.timeout new
condition_holds rule new job on_recovered = is_shown JobStatus.recovered new
condition_holds rule new job on_consecutive_failures =
    (is_shown JobStatus.failed new || is_shown JobStatus.timeout new)
    && leb (coalesce rule.count 3) job.consecutive_failures
condition_holds rule new job on_sla_breach = breaches job.sla_target job.success_rate
condition_holds rule new job (other text) = false

unfoldable pub condition_fires :
    Rule → JobStatus → JobStatus → JobCtx → Option JobState → Option UnknownReason → Bool
unfolding suppressed_unknown condition_holds
condition_fires rule prev new job new_state unknown_reason =
    if is_some (suppressed_unknown new_state unknown_reason)
    then false
    else condition_holds rule new job rule.condition

-- `now.astimezone(ZoneInfo(tz))`: the weekday (Monday is 1) and the time of day, from the time zone database.
pub record Zones : Type 0 where
  pub local : Option String → ℕ → ℕ × ℕ

-- time.fromisoformat("23:59")
abbrev pub last_minute : ℕ
last_minute = seconds 86340

abbrev pub weekdays : List ℕ
weekdays = 1 ∷ 2 ∷ 3 ∷ 4 ∷ 5 ∷ []

-- `not bh`, for a dictionary without keys.
abbrev pub is_unset : BusinessHours → Bool
is_unset bh =
    (not (is_some bh.tz) && not (is_some bh.days))
    && (not (is_some bh.start) && not (is_some bh.end))

unfoldable pub in_business_hours : Zones → Option BusinessHours → ℕ → Bool
in_business_hours zones none now = true
in_business_hours zones (some bh) now =
    let (day, time) = zones.local bh.tz now in
    if is_unset bh
    then true
    else if elem day (coalesce bh.days weekdays)
    then leb (coalesce bh.start 0) time && leb time (coalesce bh.end last_minute)
    else false

unfoldable pub is_flapping : List ℕ → ℕ → ℕ → ℕ → Bool
is_flapping change_ts now window_s threshold =
    leb threshold (count_where (λ t. leb now (t + seconds window_s)) change_ts)

unfoldable pub should_repeat : Option ℕ → Option ℕ → ℕ → Bool
should_repeat none interval now = true
should_repeat (some last) none now = false
should_repeat (some last) (some interval) now =
    if truthy interval then leb (last + seconds interval) now else false
