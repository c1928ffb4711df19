-- ===== src/Rules/Repeats.antt =====
-- How often `should_repeat` of alerting/rules.py lets one notification go out.
use jobwatch.Prelude.{
  ℕ, ◌+◌, ◌≤◌, ◌≡◌, inl, inr, true, Option, none, some, List, [], ◌∷◌, arith, Bool-cases,
  if◌then◌else◌,
}
use jobwatch.Schedule.{seconds}
use jobwatch.Rules.{should_repeat}

-- The instants, out of those at which a rule fires, at which a notification is sent; `last` is the latest one
-- sent before.
unfoldable pub sends : Option ℕ → Option ℕ → List ℕ → List ℕ
unfolding should_repeat
sends interval last [] = []
sends interval last (t ∷ ts) =
    let sent = t ∷ sends interval (some t) ts in
    let kept = sends interval last ts in if should_repeat last interval t then sent else kept

-- Each instant at least the interval after the one before it.
abbrev pub IsSpaced : ℕ → Option ℕ → List ℕ → Type 0
IsSpaced gap last [] = Unit
IsSpaced gap none (t ∷ ts) = IsSpaced gap (some t) ts
IsSpaced gap (some last) (t ∷ ts) = (last + gap ≤ t) × IsSpaced gap (some t) ts

IsSpaced-step :
    (n : ℕ) (last : Option ℕ) (t : ℕ) (ts : List ℕ)
    → should_repeat last (some n) t ≡ true
    → IsSpaced (seconds n) (some t) ts
    → IsSpaced (seconds n) last (t ∷ ts)
unfolding should_repeat
IsSpaced-step n none t ts h s = s
IsSpaced-step n (some last) t ts h s = (ground arith, s)

-- With an interval, the notifications of a rule for a job are at least that interval apart, whenever it fires.
pub sends-IsSpaced :
    (n : ℕ) (last : Option ℕ) (ts : List ℕ) → IsSpaced (seconds n) last (sends (some n) last ts)
unfolding sends
sends-IsSpaced n last [] = tt
sends-IsSpaced n last (t ∷ ts) = elim (Bool-cases (should_repeat last (some n) t)) [
  | inl h ↦
      rw h (IsSpaced-step n last t (sends (some n) (some t) ts) h (sends-IsSpaced n (some t) ts))
  | inr h ↦ rw h (sends-IsSpaced n last ts)
]
