-- ===== src/Ratelimit/Window.antt =====
-- The requests that ratelimit.py lets through in any minute.
use jobwatch.Prelude.{
  ℕ, zero, suc, elem, true, ◌==◌, ◌||◌, ==_iff, ◌+◌, ◌≤◌, ◌<◌, ◌≡◌, ◌∙◌, refl, sym, ap, inl, inr,
  false, ◌&&◌, none, some, List, [], ◌∷◌, All, ltb, leb, length, if◌then◌else◌, Bool-cases, arith,
  leb→le,
}
use jobwatch.Ratelimit.{script, live_hits, check, serve}

-- How many of the instants are behind `start` and not behind the end of the window.
unfoldable pub count_between : ℕ → ℕ → List ℕ → ℕ
count_between start end [] = 0
count_between start end (t ∷ ts) =
    let n = count_between start end ts in if ltb start t && leb t end then n + 1 else n

-- Newest first, and no clock went back.
unfoldable pub IsNewestFirst : List ℕ → Type 0
IsNewestFirst [] = Unit
IsNewestFirst (t ∷ ts) = All (λ u. u ≤ t) ts × IsNewestFirst ts

-- What stays at a later instant is the same, whether or not the set was cut before.
live_hits-live_hits :
    (win last now : ℕ) (ts : List ℕ)
    → last ≤ now
    → live_hits win now (live_hits win last ts) ≡ live_hits win now ts
live_hits-live_hits win last now [] le = refl
live_hits-live_hits win last now (t ∷ ts) le =
    let ih = live_hits-live_hits win last now ts le in ground arith

count_between-length :
    (win start now : ℕ) (ts : List ℕ)
    → now ≤ start + win
    → count_between start (start + win) ts ≤ length (live_hits win now ts)
unfolding count_between
count_between-length win start now [] le = omega arith
count_between-length win start now (t ∷ ts) le =
    let ih = count_between-length win start now ts le in ground arith

-- The instants, each once.
abbrev pub distinct : List ℕ → List ℕ
distinct [] = []
distinct (t ∷ ts) = let more = t ∷ distinct ts in if elem t ts then distinct ts else more

elem-distinct : (x : ℕ) (ts : List ℕ) → elem x (distinct ts) ≡ elem x ts
elem-distinct x [] = refl
elem-distinct x (t ∷ ts) =
    let ih = elem-distinct x ts in
    elim (Bool-cases (elem t ts)) [
      | inr new ↦ rw new (ap (λ b. t == x || b) ih)
      | inl old ↦ rw old (elim (Bool-cases (t == x)) [
        | inr other ↦ rw other ih
        | inl same ↦ rw same (ih ∙ ap (λ y. elem y ts) (sym ((==_iff t x).0 same)) ∙ old)
      ])
    ]

elem-live_hits :
    (win now x : ℕ) (ts : List ℕ)
    → ltb now (x + win) ≡ true
    → elem x (live_hits win now ts) ≡ elem x ts
elem-live_hits win now x [] live = refl
elem-live_hits win now x (t ∷ ts) live =
    let ih = elem-live_hits win now x ts live in
    elim (Bool-cases (ltb now (t + win))) [
      | inl stays ↦ rw stays (ap (λ b. t == x || b) ih)
      | inr gone ↦ elim (Bool-cases (t == x)) [
        | inr other ↦ rw (gone, other) ih
        | inl same ↦ let e = (==_iff t x).0 same in absurd (ground arith)
      ]
    ]

-- The set tells the instants at which something was let through in the window of a request.
serve-hits :
    (lim now : ℕ) (reqs : List ℕ)
    → IsNewestFirst reqs
    → All (λ u. u ≤ now) reqs
    → live_hits 60000 now (serve lim reqs).hits
      ≡ live_hits 60000 now (distinct (serve lim reqs).let_through)
unfolding IsNewestFirst serve check script
serve-hits lim now [] first le = refl
serve-hits lim now (t ∷ earlier) first le =
    let before = serve lim earlier in
    let kept = live_hits 60000 t before.hits in
    let same =
      live_hits-live_hits 60000 t now before.hits le.0 ∙ serve-hits lim now earlier first.1 le.1 in
    let here : elem t kept ≡ elem t before.let_through =
      ap (elem t) (serve-hits lim t earlier first.1 first.0)
      ∙ elem-live_hits 60000 t t (distinct before.let_through) (ground arith)
      ∙ elem-distinct t before.let_through in
    elim (Bool-cases (leb lim (length kept))) [
      | inl full ↦ rw full same
      | inr room ↦ elim (Bool-cases (elem t before.let_through)) [
        | inl there ↦ rw (room, here, there) same
        | inr new ↦
            rw (room, here, new) (ap (λ xs. if ltb now (t + 60000) then t ∷ xs else xs) same)
      ]
    ]

below : (lim n c : ℕ) → leb lim n ≡ false → c ≤ n → c < lim
below lim n c room le = ground arith

counted :
    (start end now c lim : ℕ)
    → (now ≤ end → c < lim)
    → c ≤ lim
    → (if ltb start now && leb now end then c + 1 else c) ≤ lim
counted start end now c lim h le = elim (Bool-cases (leb now end)) [
  | inl t ↦ let lt = h (leb→le now end t) in ground arith
  | inr f ↦ rw f (ground arith)
]

-- In any 60 seconds there are at most limit_per_min milliseconds in which requests under one key are let through, if no
-- clock goes back.
pub serve_bounded :
    (limit_per_min start : ℕ) (reqs : List ℕ)
    → IsNewestFirst reqs
    → count_between start (start + 60000) (distinct (serve limit_per_min reqs).let_through)
      ≤ limit_per_min
unfolding IsNewestFirst serve check script count_between
serve_bounded lim start [] first = omega arith
serve_bounded lim start (now ∷ earlier) first =
    let before = serve lim earlier in
    let n = length (live_hits 60000 now before.hits) in
    let ih = serve_bounded lim start earlier first.1 in
    let c = count_between start (start + 60000) (distinct before.let_through) in
    let same : n ≡ length (live_hits 60000 now (distinct before.let_through)) =
      ap length (serve-hits lim now earlier first.1 first.0) in
    elim (Bool-cases (leb lim n)) [
      | inl full ↦ rw full ih
      | inr room ↦ elim (Bool-cases (elem now before.let_through)) [
        | inl there ↦ rw (room, there) ih
        | inr new ↦
            rw (room, new)
              (counted start (start + 60000) now c lim
                (λ le.
                  below lim n c room (
                    rw same
                      (count_between-length 60000 start now (distinct before.let_through) le)))
                ih)
      ]
    ]

-- Where no clock goes back, a request is refused with 429 exactly when requests were let through in limit_per_min or
-- more milliseconds of the 60 seconds before it.
pub refused_exactly :
    (limit_per_min now : ℕ) (earlier : List ℕ)
    → IsNewestFirst (now ∷ earlier)
    → (check now limit_per_min (serve limit_per_min earlier).hits).raised ≡ (
        if leb limit_per_min
          (length (live_hits 60000 now (distinct (serve limit_per_min earlier).let_through)))
        then some 429
        else none)
unfolding IsNewestFirst check script
refused_exactly lim now earlier first =
    let before = serve lim earlier in
    rw (sym (serve-hits lim now earlier first.1 first.0))
      (elim (Bool-cases (leb lim (length (live_hits 60000 now before.hits)))) [
        | inl full ↦ rw full refl
        | inr room ↦ rw room refl
      ])

abbrev pub at_once : ℕ → ℕ → List ℕ
at_once zero now = []
at_once (suc n) now = now ∷ at_once n now
