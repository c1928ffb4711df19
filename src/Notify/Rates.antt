-- ===== src/Notify/Rates.antt =====
-- Channels of alerting/tasks.py are not used more often than their rate allows.
use jobwatch.Prelude.{
  ℕ, ◌+◌, ◌≤◌, ◌≡◌, ◌∙◌, ◌⊎◌, ap, sym, refl, subst, Bool, true, false, ◌&&◌, inl, inr, Option, none,
  some, List, [], ◌∷◌, ◌++◌, ◌==◌, ==_iff, ltb, find_first, find_first-holds, Bool-cases, and-true,
  count_where, count_where-skip, count_where-push_le, Mem, arith,
}
use jobwatch.Db.{Uuid}
use jobwatch.Notify.{
  Channel, Sent, rate_limited, sent, failed, LedgerRow, Outbox, Call, Outcome, unreadable, arrived,
  refused, minute, is_channel, count_up, ledger_row, note_incident, record_sent, attempt, counted,
  behind_channel, send_notification, send_all,
}

-- The sender was called.
abbrev pub was_tried : Sent → Bool
was_tried rate_limited = false
was_tried sent = true
was_tried (failed error) = true

abbrev pub is_try : Uuid → ℕ → LedgerRow → Bool
is_try id m r = (id == r.channel_id && m == minute r.sent_at) && was_tried r.status

-- How often a channel was used in a minute.
abbrev pub tries : Uuid → ℕ → Outbox → ℕ
tries id m o = count_where (is_try id m) o.ledger

abbrev pub IsAtMost : ℕ → Uuid → Outbox → Type 0
IsAtMost rate id o = (ch : Channel) → Mem ch o.channels → ch.id ≡ id → ch.rate_per_min ≤ rate

-- What one try behind the counter leaves: at most one row more, and that of a use only up to the rate.
Step : Call → ℕ → ℕ → Outbox → Outbox → Type 0
Step c n rate o o' =
    (o'.counters ≡ o.counters)
    × (o'.channels ≡ o.channels)
    × ((o'.ledger ≡ o.ledger)
        ⊎ ((status : Sent) × (o'.ledger ≡ o.ledger ++ (ledger_row c status ∷ []))
            × ((was_tried status ≡ false) ⊎ (n ≤ rate))))

noted :
    (c : Call) (status : Sent) (i : Option ℕ) (o : Outbox)
    → ((note_incident c status i o).counters ≡ o.counters)
      × ((note_incident c status i o).channels ≡ o.channels)
      × ((note_incident c status i o).ledger ≡ o.ledger)
noted c status none o = (refl, refl, refl)
noted c status (some i) o = (refl, refl, refl)

record_sent-Step :
    (c : Call) (status : Sent) (n rate : ℕ) (o : Outbox)
    → n ≤ rate
    → Step c n rate o (record_sent c status o)
unfolding Step record_sent
record_sent-Step c status n rate o le =
    let (a, b, ledger) =
      noted c status c.incident_id (record o { ledger = o.ledger ++ (ledger_row c status ∷ []) }) in
    (a, b, inr (status, ledger, inr le))

attempt-Step :
    (c : Call) (outcome : Outcome) (n rate : ℕ) (o : Outbox)
    → n ≤ rate
    → Step c n rate o (attempt c outcome o).1
unfolding Step attempt
attempt-Step c unreadable n rate o le = (refl, refl, inl refl)
attempt-Step c arrived n rate o le = record_sent-Step c sent n rate o le
attempt-Step c (refused error) n rate o le = record_sent-Step c (failed error) n rate o le

counted-Step :
    (c : Call) (outcome : Outcome) (ch : Channel) (n : ℕ) (o : Outbox)
    → Step c n ch.rate_per_min o (counted c outcome ch n o).1
unfolding Step
counted-Step c outcome ch n o = elim (Bool-cases (ltb ch.rate_per_min n)) [
  | inl over ↦ rw over (refl, refl, inr (rate_limited, refl, inl refl))
  | inr under ↦
      let le : n ≤ ch.rate_per_min = ground arith in
      rw under (attempt-Step c outcome n ch.rate_per_min o le)
]

module _ (id : Uuid) (m rate : ℕ) where
  -- Every use is counted, and there are no more than the rate.
  IsKept : Outbox → Type 0
  IsKept o = (tries id m o ≤ o.counters id m) × (tries id m o ≤ rate) × IsAtMost rate id o

  other_row :
      (c : Call) (status : Sent)
      → (id == c.channel_id && m == minute c.now) ≡ false
      → is_try id m (ledger_row c status) ≡ false
  other_row c status h = rw h refl

  own_row :
      (c : Call) (status : Sent)
      → (id == c.channel_id && m == minute c.now) ≡ true
      → is_try id m (ledger_row c status) ≡ was_tried status
  own_row c status h = rw h refl

  -- A row more, or none.
  rows-kept :
      (c : Call) (r : ℕ) (o o' : Outbox)
      → tries id m o ≤ o.counters id m
      → tries id m o ≤ rate
      → (id ≡ c.channel_id → r ≤ rate)
      → Step c
          (o.counters c.channel_id (minute c.now) + 1)
          r
          (record o { counters = count_up c.channel_id (minute c.now) o.counters })
          o'
      → (tries id m o' ≤ o'.counters id m) × (tries id m o' ≤ rate)
  unfolding Step
  rows-kept c r o o' few low within (counters, channels, ledger) =
      let old = o.counters id m in
      elim (Bool-cases (id == c.channel_id && m == minute c.now)) [
        | inr other ↦
            let n : o'.counters id m ≡ old =
              ap (λ (f : Uuid → ℕ → ℕ). f id m) counters ∙ rw other refl in
            elim ledger [
              | inl same ↦
                  let t : tries id m o' ≡ tries id m o = ap (count_where (is_try id m)) same in
                  (omega arith, omega arith)
              | inr (status, more, why) ↦
                  let t : tries id m o' ≡ tries id m o =
                    ap (count_where (is_try id m)) more
                    ∙ count_where-skip (is_try id m) (ledger_row c status) o.ledger
                        (other_row c status other) in
                  (omega arith, omega arith)
            ]
        | inl own ↦
            let n : o'.counters id m ≡ old + 1 =
              ap (λ (f : Uuid → ℕ → ℕ). f id m) counters ∙ rw own refl in
            let (first, second) = and-true (id == c.channel_id) (m == minute c.now) own in
            let ch : id ≡ c.channel_id = (==_iff id c.channel_id).0 first in
            let mi : m ≡ minute c.now = (==_iff m (minute c.now)).0 second in
            elim ledger [
              | inl same ↦
                  let t : tries id m o' ≡ tries id m o = ap (count_where (is_try id m)) same in
                  (omega arith, omega arith)
              | inr (status, more, inl untried) ↦
                  let t : tries id m o' ≡ tries id m o =
                    ap (count_where (is_try id m)) more
                    ∙ count_where-skip (is_try id m) (ledger_row c status) o.ledger
                        (own_row c status own ∙ untried) in
                  (omega arith, omega arith)
              | inr (status, more, inr le) ↦
                  let t : tries id m o' ≤ tries id m o + 1 =
                    subst (λ l. count_where (is_try id m) l ≤ tries id m o + 1) (sym more)
                      (count_where-push_le (is_try id m) (ledger_row c status) o.ledger) in
                  let this : o.counters c.channel_id (minute c.now) ≡ old =
                    ap (λ i. o.counters i (minute c.now)) (sym ch) ∙ ap (o.counters id) (sym mi) in
                  let r_le = within ch in (omega arith, omega arith)
            ]
      ]

  -- A try of a task.
  found-kept :
      (c : Call) (outcome : Outcome) (found : Option Channel) (o : Outbox)
      → ((ch : Channel) → found ≡ some ch → id ≡ c.channel_id → ch.rate_per_min ≤ rate)
      → tries id m o ≤ o.counters id m
      → tries id m o ≤ rate
      → (tries id m (behind_channel c outcome found o).1
          ≤ (behind_channel c outcome found o).1.counters id m)
        × (tries id m (behind_channel c outcome found o).1 ≤ rate)
        × ((behind_channel c outcome found o).1.channels ≡ o.channels)
  unfolding Step
  found-kept c outcome none o within few low = (few, low, refl)
  found-kept c outcome (some ch) o within few low = elim (Bool-cases ch.enabled) [
    | inr off ↦ rw off (few, low, refl)
    | inl on ↦
        let k = minute c.now in
        let up = record o { counters = count_up c.channel_id k o.counters } in
        let n = o.counters c.channel_id k + 1 in
        let step = counted-Step c outcome ch n up in
        let (few', low') =
          rows-kept c ch.rate_per_min o (counted c outcome ch n up).1 few low (within ch refl)
            step in
        rw on (few', low', step.1)
  ]

  IsKept-send_notification :
      (c : Call) (outcome : Outcome) (o : Outbox)
      → IsKept o
      → IsKept (send_notification c outcome o).1
  unfolding IsKept send_notification
  IsKept-send_notification c outcome o (few, low, rates) =
      let found = find_first (is_channel c.org_id c.channel_id) o.channels in
      let (few', low', channels) =
        found-kept c outcome found o
          (λ ch e same.
            let (holds, mem) = find_first-holds (is_channel c.org_id c.channel_id) o.channels e in
            let its =
              (==_iff ch.id c.channel_id).0
                (and-true (ch.id == c.channel_id) (ch.org_id == c.org_id) holds).0 in
            rates ch mem (its ∙ sym same))
          few low in
      (few', low', λ ch mem its. rates ch (subst (λ l. Mem ch l) channels mem) its)

  IsKept-send_all : (cs : List (Call × Outcome)) (o : Outbox) → IsKept o → IsKept (send_all cs o)
  unfolding send_all
  IsKept-send_all [] o h = h
  IsKept-send_all ((c, outcome) ∷ cs) o h =
      IsKept-send_all cs (send_notification c outcome o).1 (IsKept-send_notification c outcome o h)

-- Whatever tasks run and are retried, in whatever order, and whatever comes of them: a channel is used in one minute at
-- most as often as its rate allows, if so far it was used no more than that and each use was counted.
pub send_all-bounded :
    (id : Uuid) (m rate : ℕ) (cs : List (Call × Outcome)) (o : Outbox)
    → IsAtMost rate id o
    → tries id m o ≤ o.counters id m
    → tries id m o ≤ rate
    → tries id m (send_all cs o) ≤ rate
unfolding IsKept
send_all-bounded id m rate cs o rates few low = (IsKept-send_all id m rate cs o (few, low, rates)).1
