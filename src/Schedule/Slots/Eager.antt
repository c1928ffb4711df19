-- ===== src/Schedule/Slots/Eager.antt =====
-- The lazy loop against the eager computation that it replaced: a fixed number of runs, cut at `end`.
use Prim.Native.String.{String}
use jobwatch.Prelude.{
  ℕ, zero, suc, ◌<◌, ◌≡◌, inl, inr, Option, some, List, [], ◌∷◌, map, arith, ltb, Option-cases,
  if◌then◌else◌,
}
use jobwatch.Schedule.{Cron, slot_at, next_runs, slots_loop, slots_between}

-- The runs up to `end`, at most `limit` of them.
unfoldable pub cut : ℕ → ℕ → List ℕ → List ℕ
cut end zero runs = []
cut end (suc limit) [] = []
cut end (suc limit) (ts ∷ runs) =
    let rest = ts ∷ cut end limit runs in if ltb end ts then [] else rest

module _ (cron : Cron) (expr tz : String) (end grace_s : ℕ) (runtime : Option ℕ) where
  -- The first of the runs, and the others from there on.
  next_runs-suc :
      (n after : ℕ) {runs : List ℕ}
      → next_runs cron expr tz (suc n) after ≡ some runs
      → (ts : ℕ) × (rest : List ℕ) × (cron.get_next expr tz after ≡ some ts)
        × (next_runs cron expr tz n ts ≡ some rest)
        × (runs ≡ ts ∷ rest)
  unfolding next_runs
  next_runs-suc n after h = elim (Option-cases (cron.get_next expr tz after)) [
    | inl e ↦ absurd (ground arith)
    | inr (ts, e) ↦ elim (Option-cases (next_runs cron expr tz n ts)) [
      | inl r ↦ absurd (ground arith)
      | inr (rest, r) ↦ (ts, rest, e, r, ground arith)
    ]
  ]

  loop-eq-cut :
      (limit after : ℕ) (runs : List ℕ)
      → next_runs cron expr tz (suc limit) after ≡ some runs
      → slots_loop cron expr tz end grace_s runtime limit after
        ≡ some (map (slot_at grace_s runtime) (cut end limit runs))
  unfolding slots_loop cut
  loop-eq-cut zero after runs h =
      let (ts, rest, e, r, q) = next_runs-suc zero after h in ground arith
  loop-eq-cut (suc limit) after runs h =
      let (ts, rest, e, r, q) = next_runs-suc (suc limit) after h in
      ground (arith, loop-eq-cut limit ts rest r)

  -- The lazy slots are those of the eager computation, wherever that one raises nothing.
  pub slots_between-eq-cut :
      (start limit : ℕ) (runs : List ℕ)
      → start < end
      → next_runs cron expr tz (suc limit) start ≡ some runs
      → slots_between cron expr tz start end grace_s runtime limit
        ≡ some (map (slot_at grace_s runtime) (cut end limit runs))
  unfolding slots_between
  slots_between-eq-cut start limit runs l h = ground (arith, loop-eq-cut limit start runs h)
