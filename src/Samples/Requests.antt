-- ===== src/Samples/Requests.antt =====
-- Four requests under one key, two of them allowed in a minute.
use jobwatch.Prelude.{ℕ, ◌≤◌, ◌≡◌, refl, List, [], ◌∷◌, arith}
use jobwatch.Ratelimit.{serve, check, script}
use jobwatch.Ratelimit.Window.{IsNewestFirst, count_between, distinct, serve_bounded}

abbrev requests : List ℕ
requests = 60950 ∷ 1500 ∷ 1000 ∷ 900 ∷ []

abbrev earlier : List ℕ
earlier = 1000 ∷ 900 ∷ []

requests-IsNewestFirst : IsNewestFirst requests
unfolding IsNewestFirst
requests-IsNewestFirst = (
  (omega arith, (omega arith, (omega arith, tt))),
  ((omega arith, (omega arith, tt)), ((omega arith, tt), (tt, tt))),
)

third-IsNewestFirst : IsNewestFirst (1500 ∷ earlier)
unfolding IsNewestFirst
third-IsNewestFirst = requests-IsNewestFirst.1

third_refused : (serve 2 requests).let_through ≡ 60950 ∷ 1000 ∷ 900 ∷ []
unfolding serve check script
third_refused = refl

serve_bounded_example : count_between 900 60900 (distinct (serve 2 requests).let_through) ≤ 2
serve_bounded_example = serve_bounded 2 900 requests requests-IsNewestFirst
