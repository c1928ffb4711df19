-- ===== src/Prelude/Keys.antt =====
-- Tests on lists and optional values, as Python's `in`, `any`, `or` and comprehensions compute them.
use Prim.Native.Nat.{ℕ}
use mathlib.Core.Bool.{Bool, true, false, ◌||◌}
use mathlib.Core.Option.{Option, none, some}
use mathlib.Core.List.{List, [], ◌∷◌}
use jobwatch.Prelude.Tests.{◌==◌, if◌then◌else◌}

abbrev pub is_some {ℓ} : {A : Type ℓ} → Option A → Bool
is_some none = false
is_some (some a) = true

-- Truth of a number: Python's `if n`.
abbrev pub truthy : ℕ → Bool
truthy n = if n == 0 then false else true

module _ {ℓ} {A : Type ℓ} where
  -- `x if x is not None else d`, and SQL's COALESCE.
  abbrev pub coalesce : Option A → A → A
  coalesce none d = d
  coalesce (some a) d = a

  -- `[x for x in xs if p(x)]`
  abbrev pub keep_if : (A → Bool) → List A → List A
  keep_if p [] = []
  keep_if p (x ∷ xs) = let rest = keep_if p xs in if p x then x ∷ rest else rest

  abbrev pub any_of : (A → Bool) → List A → Bool
  any_of p [] = false
  any_of p (x ∷ xs) = p x || any_of p xs

  -- The first element that passes.
  abbrev pub find_first : (A → Bool) → List A → Option A
  find_first p [] = none
  find_first p (x ∷ xs) = let rest = find_first p xs in if p x then some x else rest

-- `x in xs`
abbrev pub elem : ℕ → List ℕ → Bool
elem x xs = any_of (λ y. y == x) xs
