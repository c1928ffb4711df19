-- ===== src/Prelude/Members.antt =====
-- Membership in appended lists, the test `elem`, and counts that grow with their test.
use Prim.Native.Nat.{ℕ, suc, ◌+◌, ◌≤◌, ◌<◌}
use mathlib.Core.Path.{◌≡◌, refl, sym, ap, subst}
use mathlib.Core.Logic.{◌⊎◌, inl, inr}
use mathlib.Core.Bool.{Bool, true, false}
use mathlib.Core.List.{List, [], ◌∷◌, ◌++◌}
use native.Mathlib.Omega.{arith}
use jobwatch.Prelude.Tests.{◌==◌, ==_iff, Bool-cases}
use jobwatch.Prelude.Keys.{elem, any_of}
use jobwatch.Prelude.Least.{Mem, head, tail, Mem-cases}
use jobwatch.Prelude.Rows.{count_where, update_where}

module _ {ℓ} {A : Type ℓ} where
  pub Mem-append_left : {a : A} {xs : List A} (ys : List A) → Mem a xs → Mem a (xs ++ ys)
  Mem-append_left ys head = head
  Mem-append_left ys (tail m) = tail (Mem-append_left ys m)

  pub Mem-append_right : {a : A} (xs : List A) {ys : List A} → Mem a ys → Mem a (xs ++ ys)
  Mem-append_right [] m = m
  Mem-append_right (x ∷ xs) m = tail (Mem-append_right xs m)

  pub Mem-append : {a : A} (xs ys : List A) → Mem a (xs ++ ys) → Mem a xs ⊎ Mem a ys
  Mem-append [] ys m = inr m
  Mem-append (x ∷ xs) ys m = elim (Mem-cases m) [
    | inl e ↦ inl (subst (λ b. Mem b (x ∷ xs)) (sym e) head)
    | inr m' ↦ elim (Mem-append xs ys m') [ inl l ↦ inl (tail l) | inr r ↦ inr r ]
  ]

  pub Mem-any_of : (p : A → Bool) {a : A} {xs : List A} → Mem a xs → p a ≡ true → any_of p xs ≡ true
  Mem-any_of p head t = ground arith
  Mem-any_of p (tail m) t = let ih = Mem-any_of p m t in ground arith

  pub any_of-Mem :
      (p : A → Bool) (xs : List A) → any_of p xs ≡ true → (a : A) × Mem a xs × (p a ≡ true)
  any_of-Mem p [] h = cc
  any_of-Mem p (x ∷ xs) h = elim (Bool-cases (p x)) [
    | inl t ↦ (x, head, t)
    | inr f ↦ let (a, m, t) = any_of-Mem p xs (rw f at h) in (a, tail m, t)
  ]

  pub any_of-left :
      (p : A → Bool) (xs ys : List A) → any_of p xs ≡ true → any_of p (xs ++ ys) ≡ true
  any_of-left p [] ys h = cc
  any_of-left p (x ∷ xs) ys h = elim (Bool-cases (p x)) [
    | inl t ↦ rw t refl
    | inr n ↦ rw n (any_of-left p xs ys (rw n at h))
  ]

  pub count_where_mono :
      (p q : A → Bool) (xs : List A)
      → ((x : A) → q x ≡ true → p x ≡ true)
      → count_where q xs ≤ count_where p xs
  count_where_mono p q [] h = omega arith
  count_where_mono p q (x ∷ xs) h =
      let ih = count_where_mono p q xs h in
      elim (Bool-cases (q x)) [ inl t ↦ rw (t, h x t) (omega arith) | inr f ↦ rw f (ground arith) ]

  -- A row that passes the first test and not the second.
  pub count_where-lt :
      (p q : A → Bool) {a : A} (xs : List A)
      → ((x : A) → q x ≡ true → p x ≡ true)
      → Mem a xs
      → p a ≡ true
      → q a ≡ false
      → count_where q xs < count_where p xs
  count_where-lt p q [] h m t f = elim m [ ]
  count_where-lt p q (x ∷ xs) h m t f = elim (Mem-cases m) [
    | inl e ↦
        let mono = count_where_mono p q xs h in rw (ap p (sym e), ap q (sym e), t, f) (omega arith)
    | inr m' ↦
        let ih = count_where-lt p q xs h m' t f in
        elim (Bool-cases (q x)) [
          | inl u ↦ rw (u, h x u) (omega arith)
          | inr n ↦ rw n (ground arith)
        ]
  ]

module _ {ℓ} {A : Type ℓ} (p : A → Bool) where
  pub count_where-update_where :
      (q : A → Bool) (f : A → A) (xs : List A)
      → ((x : A) → p (f x) ≡ p x)
      → count_where p (update_where q f xs) ≡ count_where p xs
  count_where-update_where q f [] h = refl
  count_where-update_where q f (x ∷ xs) h =
      let ih = count_where-update_where q f xs h in
      let same = h x in
      elim (Bool-cases (q x)) [
        | inl t ↦ elim (Bool-cases (p x)) [
          | inl u ↦ rw (t, same, u) (ap suc ih)
          | inr u ↦ rw (t, same, u) ih
        ]
        | inr n ↦ elim (Bool-cases (p x)) [ inl u ↦ rw (n, u) (ap suc ih) | inr u ↦ rw (n, u) ih ]
      ]

  pub count_where-push :
      (x : A) (xs : List A) → p x ≡ true → count_where p (xs ++ (x ∷ [])) ≡ count_where p xs + 1
  count_where-push x [] h = rw h refl
  count_where-push x (y ∷ ys) h =
      let ih = count_where-push x ys h in
      elim (Bool-cases (p y)) [ inl t ↦ rw t (omega arith) | inr f ↦ rw f ih ]

  pub count_where-skip :
      (x : A) (xs : List A) → p x ≡ false → count_where p (xs ++ (x ∷ [])) ≡ count_where p xs
  count_where-skip x [] h = rw h refl
  count_where-skip x (y ∷ ys) h =
      let ih = count_where-skip x ys h in
      elim (Bool-cases (p y)) [ inl t ↦ rw t (ap suc ih) | inr f ↦ rw f ih ]

  pub count_where-push_le :
      (x : A) (xs : List A) → count_where p (xs ++ (x ∷ [])) ≤ count_where p xs + 1
  count_where-push_le x xs = elim (Bool-cases (p x)) [
    | inl t ↦ let e = count_where-push x xs t in omega arith
    | inr f ↦ let e = count_where-skip x xs f in omega arith
  ]

pub Mem-elem : {x : ℕ} {xs : List ℕ} → Mem x xs → elem x xs ≡ true
Mem-elem {x} m = Mem-any_of (λ y. y == x) m ((==_iff x x).1 refl)

pub elem-Mem : (x : ℕ) (xs : List ℕ) → elem x xs ≡ true → Mem x xs
elem-Mem x xs h =
    let (y, m, t) = any_of-Mem (λ y. y == x) xs h in subst (λ b. Mem b xs) ((==_iff y x).0 t) m
