-- ===== src/Status/Machine/Traces.antt =====
-- What holds of the status over sequences of events.
use jobwatch.Prelude.{
  ◌≡◌, ◌≢◌, ◌↔◌, ◌⊎◌, ◌∙◌, refl, sym, ap, subst, true, ◌||◌, List, [], ◌∷◌, ◌++◌, arith, inl, inr,
}
use jobwatch.Status.{JobStatus}
use jobwatch.Status.Machine.{
  Event, transition, in_bad, is_late, is_recovery, completed_ok, resume, grace_expired_2x,
}

-- The status after a sequence of events.
unfoldable pub run : JobStatus → List Event → JobStatus
run s [] = s
run s (e ∷ es) = run (transition s e) es

pub data Mem : Event → List Event → Type 0 where
  head : {e : Event} {es : List Event} → Mem e (e ∷ es)
  tail : {e d : Event} {es : List Event} → Mem e es → Mem e (d ∷ es)

step-paused : (e : Event) → (e ≡ resume) ⊎ (transition JobStatus.paused e ≡ JobStatus.paused)
unfolding transition
step-paused e = ground arith

-- A paused job stays paused under every sequence of events without a resume.
pub run-paused : (es : List Event) → run JobStatus.paused es ≢ JobStatus.paused → Mem resume es
unfolding run
run-paused [] h = absurd (h refl)
run-paused (e ∷ es) h = elim (step-paused e) [
  | inl r ↦ subst (λ d. Mem resume (d ∷ es)) (sym r) head
  | inr stay ↦ tail (run-paused es (λ q. h (ap (λ s. run s es) stay ∙ q)))
]

-- Where a status that ends as missed came from: a late status that met a second expired grace.
pub record WasLate (s : JobStatus) (es : List Event) : Type 0 where
  pub before : List Event
  pub after : List Event
  pub split : es ≡ before ++ (grace_expired_2x ∷ after)
  pub late_there : run s before ≡ JobStatus.late

WasLate-cons :
    {s : JobStatus} {e : Event} {es : List Event} → WasLate (transition s e) es → WasLate s (e ∷ es)
unfolding run
WasLate-cons {e} w = record {
  before = e ∷ w.before;
  after = w.after;
  split = ap (λ l. e ∷ l) w.split;
  late_there = w.late_there;
}

step-missed :
    (s : JobStatus) (e : Event)
    → s ≢ JobStatus.missed
    → (transition s e ≢ JobStatus.missed) ⊎ ((s ≡ JobStatus.late) × (e ≡ grace_expired_2x))
unfolding transition
step-missed s e h = ground arith

-- A job becomes missed only from late, by a second expired grace.
pub run-missed :
    (s : JobStatus) (es : List Event)
    → s ≢ JobStatus.missed
    → run s es ≡ JobStatus.missed
    → WasLate s es
unfolding run
run-missed s [] h m = absurd (h m)
run-missed s (e ∷ es) h m = elim (step-missed s e h) [
  | inl fine ↦ WasLate-cons (run-missed (transition s e) es fine m)
  | inr (late_now, second) ↦ record {
    before = [];
    after = es;
    split = ap (λ d. d ∷ es) second;
    late_there = late_now;
  }
]

-- `is_recovery` picks out exactly the successful completions of a bad or late job.
pub is_recovery-transition_iff :
    (s : JobStatus) (e : Event)
    → (is_recovery s (transition s e) ≡ true)
      ↔ ((e ≡ completed_ok) × ((in_bad s || is_late s) ≡ true))
unfolding is_recovery transition
is_recovery-transition_iff s e = (λ h. (ground arith, ground arith), λ h. ground arith)

-- Recovery takes two successes: recovered after the first, healthy after the second.
pub run-recovery :
    (s : JobStatus)
    → (in_bad s || is_late s) ≡ true
    → (run s (completed_ok ∷ []) ≡ JobStatus.recovered)
      × (run s (completed_ok ∷ completed_ok ∷ []) ≡ JobStatus.healthy)
unfolding run transition
run-recovery s h = ground arith
