-- ===== src/Jobs/Listing/Order.antt =====
-- The order of the jobs in `list_jobs` of routers/jobs.py, and one page of it.
use jobwatch.Prelude.{
  ℕ, zero, suc, ◌<◌, ◌≤◌, ◌≡◌, ◌∙◌, ap, refl, subst, Bool, true, false, ◌&&◌, inl, inr, Option,
  none, some, some-injective, List, [], ◌∷◌, ltb, keep_if, keep_if-keep_if, Mem-keep_if, take, drop,
  length, All, All-Mem, Mem, head, tail, Bool-cases, arith,
}
use jobwatch.Db.{Job}
use jobwatch.Http.{ok}
use jobwatch.Access.{Text}
use jobwatch.Jobs.Listing.{is_after, last_name, page_of}

module _ (rank : Text → ℕ) where
  -- Each name comes before those behind it: no two are equal.
  abbrev pub IsAscending : List Job → Type 0
  IsAscending [] = Unit
  IsAscending (j ∷ js) = All (λ (k : Job). rank j.name < rank k.name) js × IsAscending js

  later_kept :
      (c : Text) (js : List Job)
      → All (λ (k : Job). rank c < rank k.name) js
      → keep_if (is_after rank (some c)) js ≡ js
  later_kept c [] h = refl
  later_kept c (j ∷ js) h =
      let t : ltb (rank c) (rank j.name) ≡ true = ground arith in
      rw t (ap (λ l. j ∷ l) (later_kept c js h.1))

  pub last_name-Mem :
      (n : ℕ) (js : List Job) (c : Text)
      → last_name rank (take n js) ≡ some c
      → (k : Job) × Mem k js × (k.name ≡ c)
  last_name-Mem zero js c h = cc
  last_name-Mem (suc n) [] c h = cc
  last_name-Mem (suc zero) (j ∷ js) c h = (j, head, some-injective _ _ h)
  last_name-Mem (suc (suc n)) (j ∷ []) c h = (j, head, some-injective _ _ h)
  last_name-Mem (suc (suc n)) (j ∷ k ∷ js) c h =
      let (x, m, e) = last_name-Mem (suc n) (k ∷ js) c h in (x, tail m, e)

  -- Behind the last name of a page comes what the page left.
  pub behind_page :
      (n : ℕ) (js : List Job) (c : Text)
      → IsAscending js
      → last_name rank (take (suc n) js) ≡ some c
      → keep_if (is_after rank (some c)) js ≡ drop (suc n) js
  behind_page n [] c asc h = cc
  behind_page zero (j ∷ js) c asc h =
      let same = some-injective _ _ h in
      let f : ltb (rank c) (rank j.name) ≡ false =
        subst (λ x. ltb (rank x) (rank j.name) ≡ false) same (ground arith) in
      rw f (later_kept c js (subst (λ x. All (λ (k : Job). rank x < rank k.name) js) same asc.0))
  behind_page (suc n) (j ∷ []) c asc h =
      let same = some-injective _ _ h in
      let f : ltb (rank c) (rank j.name) ≡ false =
        subst (λ x. ltb (rank x) (rank j.name) ≡ false) same (ground arith) in
      rw f refl
  behind_page (suc n) (j ∷ k ∷ js) c asc h =
      let (x, m, e) = last_name-Mem (suc n) (k ∷ js) c h in
      let before = All-Mem (λ (y : Job). rank j.name < rank y.name) asc.0 m in
      let f : ltb (rank c) (rank j.name) ≡ false =
        subst (λ y. ltb (rank y) (rank j.name) ≡ false) e (ground arith) in
      rw f (behind_page n (k ∷ js) c asc.1 h)

  All-kept :
      (p : Job → Bool) (c : Text) (js : List Job)
      → All (λ (k : Job). rank c < rank k.name) js
      → All (λ (k : Job). rank c < rank k.name) (keep_if p js)
  All-kept p c [] h = tt
  All-kept p c (j ∷ js) h = elim (Bool-cases (p j)) [
    | inl t ↦ rw t (h.0, All-kept p c js h.1)
    | inr f ↦ rw f (All-kept p c js h.1)
  ]

  pub IsAscending-keep_if :
      (p : Job → Bool) (js : List Job) → IsAscending js → IsAscending (keep_if p js)
  IsAscending-keep_if p [] h = tt
  IsAscending-keep_if p (j ∷ js) h = elim (Bool-cases (p j)) [
    | inl t ↦ rw t (All-kept p j.name js h.0, IsAscending-keep_if p js h.1)
    | inr f ↦ rw f (IsAscending-keep_if p js h.1)
  ]

  keep_if-same :
      (p q : Job → Bool) (js : List Job) → ((j : Job) → p j ≡ q j) → keep_if p js ≡ keep_if q js
  keep_if-same p q [] h = refl
  keep_if-same p q (j ∷ js) h = elim (Bool-cases (q j)) [
    | inl t ↦ rw (h j, t) (ap (λ l. j ∷ l) (keep_if-same p q js h))
    | inr f ↦ rw (h j, f) (keep_if-same p q js h)
  ]

  -- A later cursor, over what is behind an earlier one.
  pub narrowed :
      (cursor : Option Text) (c : Text) (k : Job) (js : List Job)
      → Mem k (keep_if (is_after rank cursor) js)
      → k.name ≡ c
      → keep_if (is_after rank (some c)) (keep_if (is_after rank cursor) js)
        ≡ keep_if (is_after rank (some c)) js
  narrowed none c k js m e = keep_if-keep_if (is_after rank none) (is_after rank (some c)) js
  narrowed (some d) c k js m e =
      let (old, late) = Mem-keep_if (is_after rank (some d)) js m in
      let late' : ltb (rank d) (rank c) ≡ true = subst (λ x. ltb (rank d) (rank x) ≡ true) e late in
      keep_if-keep_if (is_after rank (some d)) (is_after rank (some c)) js
      ∙ keep_if-same (λ j. is_after rank (some d) j && is_after rank (some c) j)
          (is_after rank (some c)) js (λ j. both (rank d) (rank c) (rank j.name) late')
    where
      both : (d c x : ℕ) → ltb d c ≡ true → ltb d x && ltb c x ≡ ltb c x
      both d c x h = elim (Bool-cases (ltb c x)) [
        | inl t ↦ let u : ltb d x ≡ true = ground arith in rw (u, t) refl
        | inr f ↦ elim (Bool-cases (ltb d x)) [ inl v ↦ rw (v, f) refl | inr v ↦ rw (v, f) refl ]
      ]

  take-take : (n : ℕ) (js : List Job) → take n (take (suc n) js) ≡ take n js
  take-take zero js = refl
  take-take (suc n) [] = refl
  take-take (suc n) (j ∷ js) = ap (λ l. j ∷ l) (take-take n js)

  take-short : (n : ℕ) (js : List Job) → length js ≤ n → take n js ≡ js
  take-short zero [] h = refl
  take-short zero (j ∷ js) h = absurd (omega arith)
  take-short (suc n) [] h = refl
  take-short (suc n) (j ∷ js) h = ap (λ l. j ∷ l) (take-short n js (omega arith))

  length-more : (n : ℕ) (js : List Job) → n < length js → length (take (suc n) js) ≡ suc n
  length-more zero [] h = absurd (omega arith)
  length-more zero (j ∷ js) h = refl
  length-more (suc n) [] h = absurd (omega arith)
  length-more (suc n) (j ∷ js) h = ap suc (length-more n js (omega arith))

  last_name-some : (j : Job) (js : List Job) → (c : Text) × (last_name rank (j ∷ js) ≡ some c)
  last_name-some j [] = (j.name, refl)
  last_name-some j (k ∷ js) = last_name-some k js

  pub last_of_page :
      (n : ℕ) (js : List Job)
      → suc n < length js
      → (c : Text) × (last_name rank (take (suc n) js) ≡ some c)
  last_of_page n [] h = absurd (omega arith)
  last_of_page n (j ∷ js) h = last_name-some j (take n js)

  pub page_of-last :
      (n : ℕ) (js : List Job) → length js ≤ n → page_of rank n (take (suc n) js) ≡ ok (js, none)
  page_of-last n js h =
      let whole = take-short (suc n) js (omega arith) in
      let no : ltb n (length js) ≡ false = ground arith in
      rw whole (rw (no, take-short n js h) refl)

  pub page_of-more :
      (n : ℕ) (js : List Job) (c : Text)
      → n < length js
      → last_name rank (take n js) ≡ some c
      → page_of rank n (take (suc n) js) ≡ ok (take n js, some c)
  page_of-more n js c h e =
      let yes : ltb n (length (take (suc n) js)) ≡ true =
        ap (ltb n) (length-more n js h) ∙ over n in
      rw (yes, take-take n js, e) refl
    where
      over : (n : ℕ) → ltb n (suc n) ≡ true
      over n = ground arith
