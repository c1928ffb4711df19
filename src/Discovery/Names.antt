-- ===== src/Discovery/Names.antt =====
-- The loop that looks for a free name in routers/agents.py ends.
use jobwatch.Prelude.{
  ℕ, zero, suc, ◌≤◌, ◌<◌, ◌≡◌, ◌∙◌, sym, refl, Bool, true, false, ◌||◌, inl, inr, List, [], ◌∷◌,
  ◌==◌, length, Bool-cases, and-true, count_where, count_where-lt, any_of-Mem, arith,
}
use jobwatch.Db.{Uuid}
use jobwatch.Access.{Text, eq_text}
use jobwatch.Discovery.{JobRow, name_at, is_named, taken, free_name}
use jobwatch.Discovery.Decimal.{eq_text-eq, name_at_injective}

-- Whether a job has one of the names that the rounds try.
blocks : ℕ → Uuid → Text → ℕ → JobRow → Bool
blocks zero ws base k j = false
blocks (suc fuel) ws base k j = is_named ws (name_at base k) j || blocks fuel ws base (suc k) j

named-eq :
    (ws : Uuid) (xs ys : Text) (j : JobRow)
    → is_named ws xs j ≡ true
    → is_named ws ys j ≡ true
    → xs ≡ ys
named-eq ws xs ys j hx hy =
    let (a, ex) = and-true (j.workspace_id == ws) (eq_text j.name xs) hx in
    let (b, ey) = and-true (j.workspace_id == ws) (eq_text j.name ys) hy in
    sym (eq_text-eq j.name xs ex) ∙ eq_text-eq j.name ys ey

blocks_later :
    (fuel : ℕ) (ws : Uuid) (base : Text) (i k : ℕ) (j : JobRow)
    → is_named ws (name_at base i) j ≡ true
    → i < k
    → blocks fuel ws base k j ≡ false
unfolding blocks
blocks_later zero ws base i k j h lt = refl
blocks_later (suc fuel) ws base i k j h lt = elim (Bool-cases (is_named ws (name_at base k) j)) [
  | inl t ↦
      let same = name_at_injective base i k (named-eq ws (name_at base i) (name_at base k) j h t) in
      absurd (omega arith)
  | inr f ↦ rw f (blocks_later fuel ws base i (suc k) j h (omega arith))
]

blocks_first :
    (fuel : ℕ) (ws : Uuid) (base : Text) (k : ℕ) (j : JobRow)
    → is_named ws (name_at base k) j ≡ true
    → blocks (suc fuel) ws base k j ≡ true
unfolding blocks
blocks_first fuel ws base k j h = rw h refl

blocks_more :
    (fuel : ℕ) (ws : Uuid) (base : Text) (k : ℕ) (j : JobRow)
    → blocks fuel ws base (suc k) j ≡ true
    → blocks (suc fuel) ws base k j ≡ true
unfolding blocks
blocks_more fuel ws base k j h = elim (Bool-cases (is_named ws (name_at base k) j)) [
  | inl t ↦ rw t refl
  | inr f ↦ rw f h
]

enough_rounds :
    (fuel : ℕ) (ws : Uuid) (base : Text) (k : ℕ) (rows : List JobRow)
    → count_where (blocks fuel ws base k) rows < fuel
    → taken ws (free_name fuel ws base k rows) rows ≡ false
unfolding free_name taken
enough_rounds zero ws base k rows h = absurd (omega arith)
enough_rounds (suc fuel) ws base k rows h = elim (Bool-cases (taken ws (name_at base k) rows)) [
  | inl t ↦
      let (j, m, named) = any_of-Mem (is_named ws (name_at base k)) rows t in
      let fewer =
        count_where-lt (blocks (suc fuel) ws base k) (blocks fuel ws base (suc k)) rows
          (blocks_more fuel ws base k) m (blocks_first fuel ws base k j named)
          (blocks_later fuel ws base k (suc k) j named (omega arith)) in
      rw t (enough_rounds fuel ws base (suc k) rows (omega arith))
  | inr f ↦ rw (f, f) refl
]

count_le {ℓ} : {A : Type ℓ} (p : A → Bool) (xs : List A) → count_where p xs ≤ length xs
count_le p [] = omega arith
count_le p (x ∷ xs) = let ih = count_le p xs in ground arith

-- The loop that numbers a name ends within one round more than there are jobs, with a name that no job of the
-- workspace has.
pub free_name-Free :
    (ws : Uuid) (base : Text) (rows : List JobRow)
    → taken ws (free_name (suc (length rows)) ws base 1 rows) rows ≡ false
free_name-Free ws base rows =
    let few = count_le (blocks (suc (length rows)) ws base 1) rows in
    enough_rounds (suc (length rows)) ws base 1 rows (omega arith)
