-- ===== src/Exporter/Polls.antt =====
-- What `poll_slots` of workers/outbound_exporter.py hands out, and what it leaves for the next poll.
use jobwatch.Prelude.{
  ℕ, zero, suc, ◌≤◌, ◌<◌, ◌≡◌, ◌⊎◌, inl, inr, refl, ap, false, some, List, [], ◌∷◌, arith,
  Bool-cases, All, All-Mem, All-weaken, Mem, head, tail, Mem-cases, take, length, leb, ltb, max,
  keep_if, sym, subst, true, Mem-append_left, Mem-append_right,
}
use jobwatch.Status.{SlotState}
use jobwatch.Db.{ExpectedRun, Execution, Db}
use jobwatch.Exporter.{
  PollRow, poll_rows, rows_at, with_execution, is_of, is_reported, insert_settled, by_settled,
  poll_limit, last_settled_at, poll_slots,
}

abbrev IsAscending : List PollRow → Type 0
IsAscending [] = Unit
IsAscending (p ∷ ps) = All (λ (q : PollRow). p.settled_at ≤ q.settled_at) ps × IsAscending ps

insert_settled-All :
    (n : ℕ) (p : PollRow) (qs : List PollRow)
    → n ≤ p.settled_at
    → All (λ (q : PollRow). n ≤ q.settled_at) qs
    → All (λ (q : PollRow). n ≤ q.settled_at) (insert_settled p qs)
unfolding insert_settled
insert_settled-All n p [] le h = (le, tt)
insert_settled-All n p (q ∷ qs) le h = elim (Bool-cases (leb p.settled_at q.settled_at)) [
  | inl t ↦ rw t (le, h)
  | inr f ↦ rw f (h.0, insert_settled-All n p qs le h.1)
]

insert_settled-IsAscending :
    (p : PollRow) (qs : List PollRow) → IsAscending qs → IsAscending (insert_settled p qs)
unfolding insert_settled
insert_settled-IsAscending p [] h = (tt, tt)
insert_settled-IsAscending p (q ∷ qs) h = elim (Bool-cases (leb p.settled_at q.settled_at)) [
  | inl t ↦
      let le : p.settled_at ≤ q.settled_at = ground arith in
      rw t ((le, All-weaken qs (λ x l. omega (arith, le, l)) h.0), h)
  | inr f ↦
      rw f (
        insert_settled-All q.settled_at p qs (ground arith) h.0,
        insert_settled-IsAscending p qs h.1,
      )
]

by_settled-IsAscending : (ps : List PollRow) → IsAscending (by_settled ps)
unfolding by_settled
by_settled-IsAscending [] = tt
by_settled-IsAscending (p ∷ ps) =
    insert_settled-IsAscending p (by_settled ps) (by_settled-IsAscending ps)

insert_settled-Mem :
    (p : PollRow) (qs : List PollRow) {x : PollRow} → Mem x (p ∷ qs) → Mem x (insert_settled p qs)
unfolding insert_settled
insert_settled-Mem p [] m = m
insert_settled-Mem p (q ∷ qs) m = elim (Bool-cases (leb p.settled_at q.settled_at)) [
  | inl t ↦ rw t m
  | inr f ↦ rw f (elim (Mem-cases m) [
    | inl e ↦ tail (insert_settled-Mem p qs (rw e head))
    | inr m' ↦ elim (Mem-cases m') [
      | inl e ↦ rw e head
      | inr m'' ↦ tail (insert_settled-Mem p qs (tail m''))
    ]
  ])
]

by_settled-Mem : (ps : List PollRow) {x : PollRow} → Mem x ps → Mem x (by_settled ps)
unfolding by_settled
by_settled-Mem [] m = m
by_settled-Mem (p ∷ ps) m =
    insert_settled-Mem p (by_settled ps)
      (elim (Mem-cases m) [ inl e ↦ rw e head | inr m' ↦ tail (by_settled-Mem ps m') ])

-- A row is in the part that is taken, or that part is full and has nothing later.
take-cases :
    (n : ℕ) (xs : List PollRow) (y : PollRow)
    → IsAscending xs
    → Mem y xs
    → Mem y (take n xs)
      ⊎ ((length (take n xs) ≡ n)
          × ((z : PollRow) → Mem z (take n xs) → z.settled_at ≤ y.settled_at))
take-cases zero xs y asc m = inr (refl, λ z k. elim k [ ])
take-cases (suc n) [] y asc m = elim m [ ]
take-cases (suc n) (x ∷ xs) y asc m = elim (Mem-cases m) [
  | inl e ↦ inl (rw e head)
  | inr m' ↦ elim (take-cases n xs y asc.1 m') [
    | inl k ↦ inl (tail k)
    | inr (full, low) ↦ inr (
      ap suc full,
      λ z k. elim (Mem-cases k) [
        | inl e ↦ rw e (All-Mem (λ (q : PollRow). x.settled_at ≤ q.settled_at) asc.0 m')
        | inr k' ↦ low z k'
      ],
    )
  ]
]

last_settled_at-le :
    (last : ℕ) (ps : List PollRow) (bound : ℕ)
    → last ≤ bound
    → ((z : PollRow) → Mem z ps → z.settled_at ≤ bound)
    → last_settled_at last ps ≤ bound
unfolding last_settled_at
last_settled_at-le last [] bound le low = le
last_settled_at-le last (p ∷ ps) bound le low =
    last_settled_at-le (max last p.settled_at) ps bound (omega (arith, low p head))
      (λ z m. low z (tail m))

-- How a slot that is told of has ended.
pub data IsOutcome : SlotState → Type 0 where
  has_succeeded : IsOutcome SlotState.succeeded
  has_failed : IsOutcome SlotState.failed
  was_missed : IsOutcome SlotState.missed

is_reported-outcome : (s : SlotState) → IsOutcome s → is_reported s ≡ true
is_reported-outcome s has_succeeded = refl
is_reported-outcome s has_failed = refl
is_reported-outcome s was_missed = refl

with_execution-Mem :
    (r : ExpectedRun) (t : ℕ) (es : List Execution)
    → (p : PollRow) × Mem p (with_execution r t es) × (p.run ≡ r) × (p.settled_at ≡ t)
with_execution-Mem r t [] = (_, head, refl, refl)
with_execution-Mem r t (e ∷ es) = (_, head, refl, refl)

mark_cases : (mark t : ℕ) → mark ≤ t → (mark < t) ⊎ (t ≡ mark)
mark_cases mark t le = elim (Bool-cases (ltb mark t)) [
  | inl b ↦ inl (ground arith)
  | inr f ↦ inr (omega (arith, later_or f))
]
  where
    later_or : ltb mark t ≡ false → t ≤ mark
    later_or f = ground arith

rows_at-Mem :
    (since t : ℕ) (db : Db) (r : ExpectedRun)
    → IsOutcome r.state
    → since < t
    → (p : PollRow) × Mem p (rows_at since db r (some t)) × (p.run ≡ r) × (p.settled_at ≡ t)
rows_at-Mem since t db r outcome late =
    let later : ltb since t ≡ true = ground arith in
    let (p, m, own, at_t) = with_execution-Mem r t (keep_if (is_of r.execution_id) db.executions) in
    (p, rw (later, is_reported-outcome r.state outcome) m, own, at_t)

poll_rows-Mem :
    (since t : ℕ) (db : Db) (rs : List ExpectedRun) {r : ExpectedRun}
    → Mem r rs
    → r.settled_at ≡ some t
    → IsOutcome r.state
    → since < t
    → (p : PollRow) × Mem p (poll_rows since db rs) × (p.run ≡ r) × (p.settled_at ≡ t)
unfolding poll_rows
poll_rows-Mem since t db [] m at_t outcome late = elim m [ ]
poll_rows-Mem since t db (r ∷ rs) head at_t outcome late =
    let (p, m, own, when) = rows_at-Mem since t db r outcome late in
    (
      p,
      Mem-append_left (poll_rows since db rs)
          (subst (λ o. Mem p (rows_at since db r o)) (sym at_t) m),
      own,
      when,
    )
poll_rows-Mem since t db (k ∷ rs) (tail m) at_t outcome late =
    let (p, m', own, when) = poll_rows-Mem since t db rs m at_t outcome late in
    (p, Mem-append_right (rows_at since db k k.settled_at) m', own, when)

-- Every slot that has succeeded, failed or been missed, and settled after the mark, is handed out, or it settled after
-- the next mark, so that the next poll selects it, or the poll is full and it settled at the very instant that becomes
-- the next mark.
pub poll_slots-covers :
    (since t : ℕ) (db : Db) (r : ExpectedRun)
    → Mem r db.expected_runs
    → r.settled_at ≡ some t
    → IsOutcome r.state
    → since < t
    → ((p : PollRow) × Mem p (poll_slots since db).0 × (p.run ≡ r))
      ⊎ ((poll_slots since db).1 < t)
      ⊎ ((length (poll_slots since db).0 ≡ 500) × (t ≡ (poll_slots since db).1))
unfolding poll_slots
poll_slots-covers since t db r listed at_t outcome late =
    let (p, m, own, when) = poll_rows-Mem since t db db.expected_runs listed at_t outcome late in
    elim (take-cases poll_limit (by_settled (poll_rows since db db.expected_runs)) p
      (by_settled-IsAscending (poll_rows since db db.expected_runs))
      (by_settled-Mem (poll_rows since db db.expected_runs) m)) [
        | inl k ↦ inl (p, k, own)
        | inr (full, low) ↦
            let all = by_settled (poll_rows since db db.expected_runs) in
            let le =
              last_settled_at-le since (take poll_limit all) t (omega (arith, late))
                (λ z k. subst (λ n. z.settled_at ≤ n) when (low z k)) in
            elim (mark_cases (last_settled_at since (take poll_limit all)) t le) [
              | inl later ↦ inr (inl later)
              | inr e ↦ inr (inr (full, e))
            ]
      ]
