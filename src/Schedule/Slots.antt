-- ===== src/Schedule/Slots.antt =====
-- What `slots_between` of schedule_engine.py returns, against the occurrences of the schedule.
pub mod Complete
pub mod Eager
pub mod Resume
use Prim.Native.String.{String}
use jobwatch.Prelude.{
  ℕ, zero, suc, ◌+◌, ◌≤◌, ◌<◌, ◌≡◌, ◌↔◌, ◌⊎◌, inl, inr, refl, sym, ap, subst, All-weaken,
  some-injective, Bool, true, false, Option, none, some, List, [], ◌∷◌, map, arith, ltb, leb,
  Bool-cases, Option-cases, length, All, Mem, head, tail, take, if◌then◌else◌,
}
use jobwatch.Schedule.{
  Cron, Slot, seconds, slot_at, deadline_for, cons_to, next_runs, slots_loop, slots_between,
}

-- Documented of croniter: an iterator only goes forward.
pub record IsForward (cron : Cron) : Type 0 where
  pub later : (expr tz : String) (after ts : ℕ) → cron.get_next expr tz after ≡ some ts → after < ts

-- Each slot after the one before it, the first after `from`.
abbrev pub Ascending : ℕ → List Slot → Type 0
Ascending from [] = Unit
Ascending from (s ∷ ss) = (from < s.scheduled_for) × Ascending s.scheduled_for ss

-- Grace comes after the slot's instant and the deadline after grace, by one more grace period or
-- runtime.
pub record IsTimed (grace_s : ℕ) (s : Slot) : Type 0 where
  pub grace : s.grace_until ≡ s.scheduled_for + seconds grace_s
  pub order : s.grace_until ≤ s.deadline

-- `t` is an occurrence of the schedule after the instant that is the index.
pub data Occurs (cron : Cron) (expr tz : String) (t : ℕ) : ℕ → Type 0 where
  soon : (after : ℕ) → cron.get_next expr tz after ≡ some t → Occurs cron expr tz t after
  later :
      (after ts : ℕ)
      → cron.get_next expr tz after ≡ some ts
      → Occurs cron expr tz t ts
      → Occurs cron expr tz t after

pub slot_at-IsTimed :
    (grace_s : ℕ) (runtime : Option ℕ) (ts : ℕ) → IsTimed grace_s (slot_at grace_s runtime ts)
unfolding slot_at deadline_for
slot_at-IsTimed grace_s runtime ts = ground arith

module _ (cron : Cron) (expr tz : String) (end grace_s : ℕ) (runtime : Option ℕ) where
  abbrev loop : ℕ → ℕ → Option (List Slot)
  loop = slots_loop cron expr tz end grace_s runtime

  -- One round of the loop, from what it returned.
  data Round (room after : ℕ) (out : List Slot) : Type 0 where
    full :
        (ts : ℕ)
        → cron.get_next expr tz after ≡ some ts
        → room ≡ 0
        → out ≡ []
        → Round room after out
    past :
        (ts : ℕ)
        → cron.get_next expr tz after ≡ some ts
        → end < ts
        → out ≡ []
        → Round room after out
    more :
        (ts rest_room : ℕ) (rest : List Slot)
        → cron.get_next expr tz after ≡ some ts
        → ts ≤ end
        → room ≡ suc rest_room
        → loop rest_room ts ≡ some rest
        → out ≡ slot_at grace_s runtime ts ∷ rest
        → Round room after out

  round : (room after : ℕ) (out : List Slot) → loop room after ≡ some out → Round room after out
  unfolding slots_loop
  round zero after out h = elim (Option-cases (cron.get_next expr tz after)) [
    | inl e ↦ absurd (ground arith)
    | inr (ts, e) ↦ full ts e refl (ground arith)
  ]
  round (suc room) after out h = elim (Option-cases (cron.get_next expr tz after)) [
    | inl e ↦ absurd (ground arith)
    | inr (ts, e) ↦ elim (Bool-cases (ltb end ts)) [
      | inl t ↦ past ts e (ground arith) (ground arith)
      | inr f ↦ elim (Option-cases (loop room ts)) [
        | inl no_rest ↦ absurd (ground arith)
        | inr (rest, r) ↦ more ts room rest e (ground arith) refl r (ground arith)
      ]
    ]
  ]

  -- Everything about the returned slots that does not mention what may be missing.
  pub record IsSeries (limit after : ℕ) (out : List Slot) : Type 0 where
    pub ascending : Ascending after out
    pub bounded : All (λ s. s.scheduled_for ≤ end) out
    pub short : length out ≤ limit
    pub timed : All (IsTimed grace_s) out
    pub occurs : All (λ s. Occurs cron expr tz s.scheduled_for after) out

  scheduled : List Slot → List ℕ
  scheduled out = map (λ s. s.scheduled_for) out

  module _ (forward : IsForward cron) where
    IsSeries-nil : (limit after : ℕ) → IsSeries limit after []
    IsSeries-nil limit after = record {
      ascending = tt;
      bounded = tt;
      short = omega arith;
      timed = tt;
      occurs = tt;
    }

    IsSeries-cons :
        (room after ts : ℕ) (rest : List Slot)
        → cron.get_next expr tz after ≡ some ts
        → ts ≤ end
        → IsSeries room ts rest
        → IsSeries (suc room) after (slot_at grace_s runtime ts ∷ rest)
    unfolding slot_at
    IsSeries-cons room after ts rest e l sub = record {
      ascending = (forward.later expr tz after ts e, sub.ascending);
      bounded = (l, sub.bounded);
      short = omega (arith, sub.short);
      timed = (slot_at-IsTimed grace_s runtime ts, sub.timed);
      occurs = (soon after e, All-weaken rest (λ s o. later after ts e o) sub.occurs);
    }

    loop-IsSeries :
        (room after : ℕ) (out : List Slot) → loop room after ≡ some out → IsSeries room after out
    loop-IsSeries zero after out h = go (round zero after out h)
      where
        go : Round zero after out → IsSeries zero after out
        go (full ts e r o) = rw o (IsSeries-nil zero after)
        go (past ts e l o) = rw o (IsSeries-nil zero after)
        go (more ts room' rest e l r h' o) = absurd (omega arith)
    loop-IsSeries (suc room) after out h = go (round (suc room) after out h) (loop-IsSeries room)
      where
        go :
            Round (suc room) after out
            → ((after' : ℕ) (out' : List Slot)
                → loop room after' ≡ some out'
                → IsSeries room after' out')
            → IsSeries (suc room) after out
        go (full ts e r o) ih = rw o (IsSeries-nil _ after)
        go (past ts e l o) ih = rw o (IsSeries-nil _ after)
        go (more ts room' rest e l r h' o) ih =
            let same : room' ≡ room = omega arith in
            rw o (IsSeries-cons room after ts rest e l (ih ts rest (rw same at h')))

    -- Every slot that is returned is an occurrence, after `start` and up to `end`, in ascending order,
    -- with its grace and deadline; and there are at most `limit` of them.
    pub slots_between-IsSeries :
        (start limit : ℕ) (out : List Slot)
        → slots_between cron expr tz start end grace_s runtime limit ≡ some out
        → IsSeries limit start out
    unfolding slots_between
    slots_between-IsSeries start limit out h = elim (Bool-cases (leb end start)) [
      | inl t ↦
          let none_due : [] ≡ out = some-injective _ _ (rw t at h) in
          subst (IsSeries limit start) none_due (IsSeries-nil limit start)
      | inr f ↦ loop-IsSeries limit start out (rw f at h)
    ]
