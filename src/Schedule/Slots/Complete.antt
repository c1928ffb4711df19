-- ===== src/Schedule/Slots/Complete.antt =====
-- No occurrence is left out while there is room below the limit.
use Prim.Native.String.{String}
use jobwatch.Prelude.{
  ℕ, zero, suc, ◌≤◌, ◌<◌, ◌≡◌, ◌↔◌, ◌⊎◌, inl, inr, sym, ap, ◌∙◌, subst, Option, some,
  some-injective, List, [], ◌∷◌, arith, leb, Bool-cases, length, All, Mem, head, tail, Mem-cases,
}
use jobwatch.Schedule.{Cron, Slot, slot_at, slots_between}
use jobwatch.Schedule.Slots.{
  IsForward, Occurs, soon, later, slots_between-IsSeries, loop, full, past, more, round,
}

-- The instants of the slots.
unfoldable pub instants : List Slot → List ℕ
instants [] = []
instants (s ∷ ss) = s.scheduled_for ∷ instants ss

module _ (cron : Cron) (expr tz : String) where
  -- The first occurrence is the next one, and the others are occurrences after it.
  Occurs-cases :
      {t after ts : ℕ}
      → cron.get_next expr tz after ≡ some ts
      → Occurs cron expr tz t after
      → (t ≡ ts) ⊎ Occurs cron expr tz t ts
  Occurs-cases e (soon after e') = inl (some-injective _ _ (sym e' ∙ e))
  Occurs-cases {t} e (later after ts' e' o) =
      inr (subst (λ u. Occurs cron expr tz t u) (some-injective _ _ (sym e' ∙ e)) o)

  Occurs-after : IsForward cron → {t after : ℕ} → Occurs cron expr tz t after → after < t
  Occurs-after forward {t} (soon after e) = forward.later expr tz after t e
  Occurs-after forward (later after ts e o) =
      omega (arith, forward.later expr tz after ts e, Occurs-after forward o)

  -- An occurrence up to `end` that is among the instants of the slots.
  Listed : ℕ → List Slot → Type 0
  Listed t out = Mem t (instants out)

  module _ (forward : IsForward cron) (end grace_s : ℕ) (runtime : Option ℕ) where
    loop_complete :
        (room after t : ℕ) (out : List Slot)
        → loop cron expr tz end grace_s runtime room after ≡ some out
        → length out < room
        → Occurs cron expr tz t after
        → t ≤ end
        → Listed t out
    unfolding Listed instants slot_at
    loop_complete zero after t out h l o b = absurd (omega arith)
    loop_complete (suc room) after t out h l o b =
        elim (round cron expr tz end grace_s runtime (suc room) after out h) [
          | full ts e r _ ↦ absurd (omega arith)
          | past ts e far _ ↦ elim (Occurs-cases e o) [
            | inl same ↦ absurd (omega arith)
            | inr beyond ↦ absurd (omega (arith, Occurs-after forward beyond))
          ]
          | more ts room' rest e le r h' eq ↦ rw eq (elim (Occurs-cases e o) [
            | inl same ↦ rw same head
            | inr beyond ↦
                let same : room' ≡ room = omega arith in
                tail (
                  loop_complete room ts t rest (rw same at h')
                    (omega (arith, ap (length {A = Slot}) eq)) beyond b)
          ])
        ]

    All→Listed-Occurs :
        (after t : ℕ) (out : List Slot)
        → All (λ s. Occurs cron expr tz s.scheduled_for after) out
        → All (λ s. s.scheduled_for ≤ end) out
        → Listed t out
        → Occurs cron expr tz t after × (t ≤ end)
    unfolding Listed instants
    All→Listed-Occurs after t [] a b m = elim m [ ]
    All→Listed-Occurs after t (s ∷ out) a b m = elim (Mem-cases m) [
      | inl e ↦ rw e (a.0, b.0)
      | inr m' ↦ All→Listed-Occurs after t out a.1 b.1 m'
    ]

    -- Below the limit, the returned slots are exactly the occurrences after `start` and up to `end`.
    pub slots_between_complete :
        (start limit t : ℕ) (out : List Slot)
        → slots_between cron expr tz start end grace_s runtime limit ≡ some out
        → length out < limit
        → Mem t (instants out) ↔ (Occurs cron expr tz t start × (t ≤ end))
    unfolding slots_between Listed
    slots_between_complete start limit t out h l =
        let series =
          slots_between-IsSeries cron expr tz end grace_s runtime forward start limit out h in
        (
          All→Listed-Occurs start t out series.occurs series.bounded,
          λ (o, b). elim (Bool-cases (leb end start)) [
            | inl idle ↦ absurd (ground (arith, Occurs-after forward o))
            | inr f ↦ loop_complete limit start t out (rw f at h) l o b
          ],
        )
