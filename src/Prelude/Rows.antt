-- ===== src/Prelude/Rows.antt =====
-- Tables as lists of rows: what UPDATE ... WHERE, count(*), min and ORDER BY compute.
use Prim.Native.Nat.{ℕ}
use mathlib.Core.Path.{◌≡◌, refl}
use mathlib.Core.Logic.{inl, inr}
use mathlib.Core.Bool.{Bool}
use mathlib.Core.Option.{Option, none, some}
use mathlib.Core.List.{List, [], ◌∷◌, map}
use jobwatch.Prelude.Tests.{ltb, if◌then◌else◌, Bool-cases}
use jobwatch.Prelude.Lists.{length}
use jobwatch.Prelude.Keys.{keep_if}
use jobwatch.Prelude.Least.{Mem, head, tail, Mem-cases}

module _ {ℓ} {A : Type ℓ} where
  -- UPDATE: rows that pass are replaced, and the others stay.
  abbrev pub update_if : (A → Bool) → (A → A) → A → A
  update_if p f a = if p a then f a else a

  abbrev pub update_where : (A → Bool) → (A → A) → List A → List A
  update_where p f [] = []
  update_where p f (x ∷ xs) = update_if p f x ∷ update_where p f xs

  -- count(*) ... WHERE
  abbrev pub count_where : (A → Bool) → List A → ℕ
  count_where p xs = length (keep_if p xs)

  -- ORDER BY key DESC; rows with one key keep their order.
  abbrev pub insert_desc : (A → ℕ) → A → List A → List A
  insert_desc key a [] = a ∷ []
  insert_desc key a (x ∷ xs) =
      let rest = x ∷ insert_desc key a xs in if ltb (key a) (key x) then rest else a ∷ x ∷ xs

  abbrev pub sort_desc : (A → ℕ) → List A → List A
  sort_desc key [] = []
  sort_desc key (x ∷ xs) = insert_desc key x (sort_desc key xs)

  pub map-update_where {κ} :
      {B : Type κ} (g : A → B) (p : A → Bool) (f : A → A) (xs : List A)
      → ((x : A) → g (f x) ≡ g x)
      → map g (update_where p f xs) ≡ map g xs
  map-update_where g p f [] h = refl
  map-update_where g p f (x ∷ xs) h = elim (Bool-cases (p x)) [
    | inl t ↦ rw (t, h, map-update_where g p f xs h)
    | inr n ↦ rw (n, map-update_where g p f xs h)
  ]

  -- A row after an UPDATE comes from one before it.
  pub Mem-update_where :
      (p : A → Bool) (f : A → A) (xs : List A) {a : A}
      → Mem a (update_where p f xs)
      → (b : A) × Mem b xs × (a ≡ update_if p f b)
  Mem-update_where p f [] m = elim m [ ]
  Mem-update_where p f (x ∷ xs) m = elim (Mem-cases m) [
    | inl e ↦ (x, head, e)
    | inr m' ↦ let (b, old, e) = Mem-update_where p f xs m' in (b, tail old, e)
  ]

  pub update_where-Mem :
      (p : A → Bool) (f : A → A) {a : A} {xs : List A}
      → Mem a xs
      → Mem (update_if p f a) (update_where p f xs)
  update_where-Mem p f head = head
  update_where-Mem p f (tail m) = tail (update_where-Mem p f m)

-- min(x), NULL on no row.
abbrev pub minimum : List ℕ → Option ℕ
minimum [] = none
minimum (x ∷ xs) = elim (minimum xs) [ none ↦ some x | some m ↦ some (if ltb m x then m else x) ]

-- max(x), NULL on no row.
abbrev pub maximum : List ℕ → Option ℕ
maximum [] = none
maximum (x ∷ xs) = elim (maximum xs) [ none ↦ some x | some m ↦ some (if ltb x m then m else x) ]
