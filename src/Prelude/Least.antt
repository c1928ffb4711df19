-- ===== src/Prelude/Least.antt =====
-- The first least element of a list, as Python's `min(xs, key=...)` and SQL's ORDER BY ... LIMIT 1
-- choose it, with membership and predicates over lists.
use mathlib.Core.Path.{◌≡◌, ◌∙◌, refl, sym, ap, subst}
use mathlib.Core.Bool.{Bool, true, false, ◌&&◌}
use mathlib.Core.Option
use mathlib.Core.Logic.{◌⊎◌, inl, inr}
use mathlib.Core.Option.{Option, none, some, some-injective}
use mathlib.Core.List.{List, [], ◌∷◌, map}
use jobwatch.Prelude.Tests.{if◌then◌else◌, Bool-cases}
use jobwatch.Prelude.Keys.{keep_if}

abbrev pub All {ℓ κ} : {A : Type ℓ} → (A → Type κ) → List A → Type κ
All P [] = Unit
All P (x ∷ xs) = P x × All P xs

pub data Mem {ℓ} {A : Type ℓ} (a : A) : List A → Type ℓ where
  head : {xs : List A} → Mem a (a ∷ xs)
  tail : {x : A} {xs : List A} → Mem a xs → Mem a (x ∷ xs)

module _ {ℓ} {A : Type ℓ} where
  pub All-Mem {κ} : (P : A → Type κ) {a : A} {xs : List A} → All P xs → Mem a xs → P a
  All-Mem P h head = h.0
  All-Mem P h (tail m) = All-Mem P h.1 m

  pub All-map {κ μ} :
      {B : Type κ} (P : B → Type μ) (f : A → B) (xs : List A)
      → All (λ x. P (f x)) xs
      → All P (map f xs)
  All-map P f [] h = tt
  All-map P f (x ∷ xs) h = (h.0, All-map P f xs h.1)

  pub All-weaken {κ μ} :
      {P : A → Type κ} {Q : A → Type μ} (xs : List A) → ((x : A) → P x → Q x) → All P xs → All Q xs
  All-weaken [] f h = tt
  All-weaken (x ∷ xs) f h = (f x h.0, All-weaken xs f h.1)

  pub All-of {κ} : {P : A → Type κ} (xs : List A) → ((x : A) → P x) → All P xs
  All-of [] f = tt
  All-of (x ∷ xs) f = (f x, All-of xs f)

  pub All-keep_if : (p : A → Bool) (xs : List A) → All (λ x. p x ≡ true) (keep_if p xs)
  All-keep_if p [] = tt
  All-keep_if p (x ∷ xs) = elim (Bool-cases (p x)) [
    | inl t ↦ rw t (t, All-keep_if p xs)
    | inr f ↦ rw f (All-keep_if p xs)
  ]

  pub keep_if-Mem :
      (p : A → Bool) (xs : List A) {a : A} → Mem a xs → p a ≡ true → Mem a (keep_if p xs)
  keep_if-Mem p [] m t = elim m [ ]
  keep_if-Mem p (x ∷ xs) head t = rw t head
  keep_if-Mem p (x ∷ xs) (tail m) t = elim (Bool-cases (p x)) [
    | inl u ↦ rw u (tail (keep_if-Mem p xs m t))
    | inr f ↦ rw f (keep_if-Mem p xs m t)
  ]

  pub Mem-cases : {a x : A} {xs : List A} → Mem a (x ∷ xs) → (a ≡ x) ⊎ Mem a xs
  Mem-cases head = inl refl
  Mem-cases (tail m) = inr m

  pub Mem-keep_if :
      (p : A → Bool) (xs : List A) {a : A} → Mem a (keep_if p xs) → Mem a xs × (p a ≡ true)
  Mem-keep_if p [] m = elim m [ ]
  Mem-keep_if p (x ∷ xs) {a} m = elim (Bool-cases (p x)) [
    | inl t ↦ elim (Mem-cases (rw t at m)) [
      | inl e ↦ subst (λ b. Mem b (x ∷ xs) × (p b ≡ true)) (sym e) (head, t)
      | inr m' ↦ let (old, u) = Mem-keep_if p xs m' in (tail old, u)
    ]
    | inr f ↦ let (old, u) = Mem-keep_if p xs (rw f at m) in (tail old, u)
  ]

  -- `least_from` carries the best element so far; a later one replaces it only if it stands before.
  pub least_from : (A → A → Bool) → A → List A → A
  least_from before m [] = m
  least_from before m (x ∷ xs) = least_from before (if before x m then x else m) xs

  unfoldable pub least : (A → A → Bool) → List A → Option A
  unfolding least_from
  least before [] = none
  least before (x ∷ xs) = some (least_from before x xs)

-- Membership goes through a function.
pub map-Mem {ℓ κ} :
    {A : Type ℓ} {B : Type κ} (f : A → B) {a : A} {xs : List A} → Mem a xs → Mem (f a) (map f xs)
map-Mem f head = head
map-Mem f (tail m) = tail (map-Mem f m)

-- `before` is a strict order.
pub record IsStrict {ℓ} {A : Type ℓ} (before : A → A → Bool) : Type ℓ where
  pub irreflexive : (x : A) → before x x ≡ false
  pub transitive : (x y z : A) → before x y ≡ true → before y z ≡ true → before x z ≡ true

module _ {ℓ} {A : Type ℓ} (before : A → A → Bool) where
  pub least_from-Mem : (m : A) (xs : List A) → Mem (least_from before m xs) (m ∷ xs)
  unfolding least_from
  least_from-Mem m [] = head
  least_from-Mem m (x ∷ xs) = elim (Bool-cases (before x m)) [
    | inl t ↦ rw t (tail (least_from-Mem x xs))
    | inr f ↦ rw f (widen (least_from-Mem m xs))
  ]
    where
      widen : {a : A} → Mem a (m ∷ xs) → Mem a (m ∷ x ∷ xs)
      widen head = head
      widen (tail m') = tail (tail m')

  pub least-Mem : (xs : List A) {a : A} → least before xs ≡ some a → Mem a xs
  unfolding least
  least-Mem [] h = cc
  least-Mem (x ∷ xs) h = subst (λ b. Mem b (x ∷ xs)) (some-injective _ _ h) (least_from-Mem x xs)

  pub least-none : (xs : List A) → least before xs ≡ none → xs ≡ []
  unfolding least
  least-none [] h = refl
  least-none (x ∷ xs) h = cc

  module _ (strict : IsStrict before) where
    open strict use {irreflexive, transitive}

    not_before : (x y z : A) → before z y ≡ true → before x y ≡ false → before x z ≡ false
    not_before x y z zy xy = elim (Bool-cases (before x z)) [
      | inl t ↦ cc (transitive x z y t zy)
      | inr f ↦ f
    ]

    least_from-low :
        (m : A) (xs : List A) (y : A)
        → before y m ≡ false
        → before y (least_from before m xs) ≡ false
    unfolding least_from
    least_from-low m [] y h = h
    least_from-low m (x ∷ xs) y h = elim (Bool-cases (before x m)) [
      | inl t ↦ rw t (least_from-low x xs y (not_before y m x t h))
      | inr f ↦ rw f (least_from-low m xs y h)
    ]

    least_from-later :
        (m : A) (xs : List A) (y : A) → Mem y xs → before y (least_from before m xs) ≡ false
    unfolding least_from
    least_from-later m [] y mem = elim mem [ ]
    least_from-later m (x ∷ xs) y mem = elim (Bool-cases (before x m)) [
      | inl t ↦ rw t (elim (Mem-cases mem) [
        | inl e ↦ rw e (least_from-low x xs x (irreflexive x))
        | inr later ↦ least_from-later x xs y later
      ])
      | inr f ↦ rw f (elim (Mem-cases mem) [
        | inl e ↦ rw e (least_from-low m xs x f)
        | inr later ↦ least_from-later m xs y later
      ])
    ]

    -- Nothing in the list stands before what was chosen.
    pub least-low :
        (xs : List A) (y : A) {a : A} → least before xs ≡ some a → Mem y xs → before y a ≡ false
    unfolding least
    least-low [] y h mem = elim mem [ ]
    least-low (x ∷ xs) y h mem =
        subst (λ b. before y b ≡ false) (some-injective _ _ h)
          (elim (Mem-cases mem) [
            | inl e ↦ rw e (least_from-low x xs x (irreflexive x))
            | inr later ↦ least_from-later x xs y later
          ])

-- A choice and a filter go through a function.
module _ {ℓ κ} {A : Type ℓ} {B : Type κ} (f : A → B) where
  if-outside : (b : Bool) (x m : A) → (if b then f x else f m) ≡ f (if b then x else m)
  if-outside true x m = refl
  if-outside false x m = refl

  least_from-map :
      (before : B → B → Bool) (m : A) (xs : List A)
      → least_from before (f m) (map f xs) ≡ f (least_from (λ a b. before (f a) (f b)) m xs)
  unfolding least_from
  least_from-map before m [] = refl
  least_from-map before m (x ∷ xs) =
      ap (λ w. least_from before w (map f xs)) (if-outside (before (f x) (f m)) x m)
      ∙ least_from-map before (if before (f x) (f m) then x else m) xs

  pub least-map :
      (before : B → B → Bool) (xs : List A)
      → least before (map f xs) ≡ Option.map f (least (λ a b. before (f a) (f b)) xs)
  unfolding least
  least-map before [] = refl
  least-map before (x ∷ xs) = ap some (least_from-map before x xs)

  pub keep_if-map :
      (p : B → Bool) (xs : List A) → keep_if p (map f xs) ≡ map f (keep_if (λ x. p (f x)) xs)
  keep_if-map p [] = refl
  keep_if-map p (x ∷ xs) = elim (Bool-cases (p (f x))) [
    | inl t ↦ rw t (ap (λ l. f x ∷ l) (keep_if-map p xs))
    | inr n ↦ rw n (keep_if-map p xs)
  ]

pub keep_if-keep_if {ℓ} :
    {A : Type ℓ} (p q : A → Bool) (xs : List A)
    → keep_if q (keep_if p xs) ≡ keep_if (λ x. p x && q x) xs
keep_if-keep_if p q [] = refl
keep_if-keep_if p q (x ∷ xs) = elim (Bool-cases (p x)) [
  | inl t ↦ elim (Bool-cases (q x)) [
    | inl u ↦ rw (t, u) (ap (λ l. x ∷ l) (keep_if-keep_if p q xs))
    | inr n ↦ rw (t, n) (keep_if-keep_if p q xs)
  ]
  | inr n ↦ rw n (keep_if-keep_if p q xs)
]
