-- ===== src/Prelude/Sorted.antt =====
-- Laws of ORDER BY, max, count and lookups by a key, over Rows.
use Prim.Native.Nat.{ℕ, ◌≤◌, ◌<◌}
use mathlib.Core.Path.{◌≡◌, refl, subst}
use mathlib.Core.Logic.{◌⊎◌, inl, inr}
use mathlib.Core.Bool.{Bool, true, false}
use mathlib.Core.Option
use mathlib.Core.Option.{Option, none, some, some-injective}
use mathlib.Core.List.{List, [], ◌∷◌, ◌++◌, map}
use native.Mathlib.Omega.{arith}
use jobwatch.Prelude.Tests.{ltb, Bool-cases, Option-cases}
use jobwatch.Prelude.Keys.{find_first, any_of}
use jobwatch.Prelude.Least.{All, Mem, head, tail, Mem-cases}
use jobwatch.Prelude.Rows.{update_if, update_where, count_where, insert_desc, sort_desc, maximum}

pub List-cases {ℓ} :
    {A : Type ℓ} (xs : List A) → (xs ≡ []) ⊎ ((x : A) × (rest : List A) × (xs ≡ x ∷ rest))
List-cases [] = inl refl
List-cases (x ∷ xs) = inr (x, xs, refl)

module _ {ℓ} {A : Type ℓ} (key : A → ℕ) where
  insert_desc-Mem : (a x : A) (xs : List A) → Mem x (a ∷ xs) → Mem x (insert_desc key a xs)
  insert_desc-Mem a x [] m = m
  insert_desc-Mem a x (y ∷ ys) m = elim (Bool-cases (ltb (key a) (key y))) [
    | inl t ↦ rw t (elim (Mem-cases m) [
      | inl e ↦ tail (insert_desc-Mem a x ys (rw e head))
      | inr m' ↦ elim (Mem-cases m') [
        | inl e ↦ rw e head
        | inr m'' ↦ tail (insert_desc-Mem a x ys (tail m''))
      ]
    ])
    | inr f ↦ rw f m
  ]

  Mem-insert_desc : (a x : A) (xs : List A) → Mem x (insert_desc key a xs) → Mem x (a ∷ xs)
  Mem-insert_desc a x [] m = m
  Mem-insert_desc a x (y ∷ ys) m = elim (Bool-cases (ltb (key a) (key y))) [
    | inl t ↦ elim (Mem-cases (rw t at m)) [
      | inl e ↦ rw e (tail head)
      | inr m' ↦ elim (Mem-cases (Mem-insert_desc a x ys m')) [
        | inl e ↦ rw e head
        | inr m'' ↦ tail (tail m'')
      ]
    ]
    | inr f ↦ (rw f at m)
  ]

  pub sort_desc-Mem : (x : A) (xs : List A) → Mem x xs → Mem x (sort_desc key xs)
  sort_desc-Mem x [] m = m
  sort_desc-Mem x (y ∷ ys) m =
      insert_desc-Mem y x (sort_desc key ys)
        (elim (Mem-cases m) [ inl e ↦ rw e head | inr m' ↦ tail (sort_desc-Mem x ys m') ])

  pub Mem-sort_desc : (x : A) (xs : List A) → Mem x (sort_desc key xs) → Mem x xs
  Mem-sort_desc x [] m = m
  Mem-sort_desc x (y ∷ ys) m = elim (Mem-cases (Mem-insert_desc y x (sort_desc key ys) m)) [
    | inl e ↦ rw e head
    | inr m' ↦ tail (Mem-sort_desc x ys m')
  ]

  insert_desc-top :
      (a : A) (xs : List A)
      → ((z : A) (zs : List A) → xs ≡ z ∷ zs → (x : A) → Mem x xs → key x ≤ key z)
      → (y : A) (ys : List A) → insert_desc key a xs ≡ y ∷ ys
      → (x : A) → Mem x (a ∷ xs)
      → key x ≤ key y
  insert_desc-top a [] top y ys e x m = elim (Mem-cases m) [
    | inl same ↦ ground arith
    | inr m' ↦ elim m' [ ]
  ]
  insert_desc-top a (z ∷ zs) top y ys e x m = elim (Mem-cases m) [
    | inl same ↦ ground arith
    | inr m' ↦ ground (arith, top z zs refl x m')
  ]

  -- The first row after ORDER BY key DESC has the greatest key.
  pub sort_desc-top :
      (xs : List A) (y : A) (ys : List A)
      → sort_desc key xs ≡ y ∷ ys
      → (x : A) → Mem x xs
      → key x ≤ key y
  sort_desc-top [] y ys e x m = elim m [ ]
  sort_desc-top (a ∷ xs) y ys e x m =
      insert_desc-top a (sort_desc key xs)
        (λ z zs q w n. sort_desc-top xs z zs q w (Mem-sort_desc w xs n)) y ys e x
        (elim (Mem-cases m) [ inl same ↦ rw same head | inr m' ↦ tail (sort_desc-Mem x xs m') ])

pub maximum-none : (xs : List ℕ) (x : ℕ) → maximum xs ≡ none → ¬ Mem x xs
maximum-none [] x h mem = elim mem [ ]
maximum-none (y ∷ ys) x h mem = elim (Option-cases (maximum ys)) [
  | inl e ↦ ground arith
  | inr (n, e) ↦ ground arith
]

pub maximum-ge : (xs : List ℕ) (x : ℕ) {m : ℕ} → maximum xs ≡ some m → Mem x xs → x ≤ m
maximum-ge [] x h mem = elim mem [ ]
maximum-ge (y ∷ ys) x h mem = elim (Option-cases (maximum ys)) [
  | inl e ↦ elim (Mem-cases mem) [
    | inl same ↦ ground arith
    | inr later ↦ absurd (maximum-none ys x e later)
  ]
  | inr (n, e) ↦ elim (Mem-cases mem) [
    | inl same ↦ ground arith
    | inr later ↦ ground (arith, maximum-ge ys x e later)
  ]
]

pub maximum-Mem : (xs : List ℕ) {m : ℕ} → maximum xs ≡ some m → Mem m xs
maximum-Mem [] h = cc
maximum-Mem (y ∷ ys) h = elim (Option-cases (maximum ys)) [
  | inl e ↦ let same = some-injective _ _ (rw e at h) in subst (λ b. Mem b (y ∷ ys)) same head
  | inr (n, e) ↦ elim (Bool-cases (ltb y n)) [
    | inl t ↦
        let same = some-injective _ _ (rw (e, t) at h) in
        subst (λ b. Mem b (y ∷ ys)) same (tail (maximum-Mem ys e))
    | inr f ↦
        let same = some-injective _ _ (rw (e, f) at h) in subst (λ b. Mem b (y ∷ ys)) same head
  ]
]

module _ {ℓ κ} {A : Type ℓ} {B : Type κ} where
  pub Mem-map :
      (f : A → B) (xs : List A) {b : B} → Mem b (map f xs) → (a : A) × Mem a xs × (b ≡ f a)
  Mem-map f [] m = elim m [ ]
  Mem-map f (x ∷ xs) m = elim (Mem-cases m) [
    | inl e ↦ (x, head, e)
    | inr m' ↦ let (a, n, e) = Mem-map f xs m' in (a, tail n, e)
  ]

module _ {ℓ} {A : Type ℓ} where
  pub count_where-zero :
      (p : A → Bool) (xs : List A) → ((x : A) → Mem x xs → p x ≡ false) → count_where p xs ≡ 0
  count_where-zero p [] h = refl
  count_where-zero p (x ∷ xs) h = rw (h x head) (count_where-zero p xs (λ y m. h y (tail m)))

  pub count_where-pos :
      (p : A → Bool) (xs : List A) → 0 < count_where p xs → (x : A) × Mem x xs × (p x ≡ true)
  count_where-pos p [] h = absurd (omega arith)
  count_where-pos p (x ∷ xs) h = elim (Bool-cases (p x)) [
    | inl t ↦ (x, head, t)
    | inr f ↦ let (y, m, t) = count_where-pos p xs (rw f at h) in (y, tail m, t)
  ]

  pub pos-count_where :
      (p : A → Bool) (xs : List A) {x : A} → Mem x xs → p x ≡ true → 0 < count_where p xs
  pos-count_where p [] m t = elim m [ ]
  pos-count_where p (y ∷ ys) m t = elim (Bool-cases (p y)) [
    | inl u ↦ rw u (omega arith)
    | inr f ↦ elim (Mem-cases m) [
      | inl e ↦ absurd (ground arith)
      | inr later ↦ rw f (pos-count_where p ys later t)
    ]
  ]

  -- The row that a key finds, after an UPDATE that keeps keys.
  pub find_first-update_where :
      (q p : A → Bool) (f : A → A) (xs : List A)
      → ((x : A) → q (f x) ≡ q x)
      → find_first q (update_where p f xs) ≡ Option.map (update_if p f) (find_first q xs)
  find_first-update_where q p f [] h = refl
  find_first-update_where q p f (x ∷ xs) h = ground (arith, h x, find_first-update_where q p f xs h)

  pub find_first-holds :
      (q : A → Bool) (xs : List A) {a : A} → find_first q xs ≡ some a → (q a ≡ true) × Mem a xs
  find_first-holds q [] h = cc
  find_first-holds q (x ∷ xs) h = elim (Bool-cases (q x)) [
    | inl t ↦
        let e = some-injective _ _ (rw t at h) in
        subst (λ b. (q b ≡ true) × Mem b (x ∷ xs)) e (t, head)
    | inr f ↦ let (t, m) = find_first-holds q xs (rw f at h) in (t, tail m)
  ]

module _ {ℓ} {A : Type ℓ} where
  -- A property that the UPDATE keeps, of the rows that it changes and of the others.
  pub All-update_where {κ} :
      (P : A → Type κ) (p : A → Bool) (f : A → A) (xs : List A)
      → ((a : A) → P a → P (f a))
      → All P xs
      → All P (update_where p f xs)
  All-update_where P p f [] keep h = tt
  All-update_where P p f (x ∷ xs) keep h = elim (Bool-cases (p x)) [
    | inl t ↦ (rw t (keep x h.0), All-update_where P p f xs keep h.1)
    | inr n ↦ (rw n h.0, All-update_where P p f xs keep h.1)
  ]

  pub All-append {κ} : (P : A → Type κ) (xs ys : List A) → All P xs → All P ys → All P (xs ++ ys)
  All-append P [] ys h k = k
  All-append P (x ∷ xs) ys h k = (h.0, All-append P xs ys h.1 k)

  pub any_of-false : (p : A → Bool) (xs : List A) → any_of p xs ≡ false → All (λ x. p x ≡ false) xs
  any_of-false p [] h = tt
  any_of-false p (x ∷ xs) h = (ground arith, any_of-false p xs (ground arith))

  pub any_of_none :
      (p : A → Bool) (xs : List A) → ((x : A) → Mem x xs → p x ≡ false) → any_of p xs ≡ false
  any_of_none p [] h = refl
  any_of_none p (x ∷ xs) h = rw (h x head) (any_of_none p xs (λ y m. h y (tail m)))

  pub find_first-none :
      (q : A → Bool) (xs : List A) → find_first q xs ≡ none → (x : A) → Mem x xs → q x ≡ false
  find_first-none q [] h x m = elim m [ ]
  find_first-none q (y ∷ ys) h x m = elim (Bool-cases (q y)) [
    | inl t ↦ absurd (ground arith)
    | inr n ↦ elim (Mem-cases m) [ inl e ↦ rw e n | inr m' ↦ find_first-none q ys (rw n at h) x m' ]
  ]

  pub Mem-append_last : (xs : List A) (a : A) → Mem a (xs ++ (a ∷ []))
  Mem-append_last [] a = head
  Mem-append_last (x ∷ xs) a = tail (Mem-append_last xs a)
