-- ===== src/Samples/Lists.antt =====
-- Three jobs, listed two at a time.
use jobwatch.Prelude.{ℕ, ◌≡◌, refl, none, some, [], ◌∷◌, List}
use jobwatch.Db.{Job}
use jobwatch.Http.{ok}
use jobwatch.Access.{Text}
use jobwatch.Jobs.Listing.{JobQuery, insert_named, by_name, list_jobs}
use jobwatch.Samples.{backup}

-- Names of one letter.
abbrev first_letter : Text → ℕ
first_letter [] = 0
first_letter (c ∷ cs) = c

abbrev jobs : List Job
jobs =
    record backup { id = 2; name = 99 ∷ [] }
    ∷ record backup { id = 3; name = 97 ∷ [] }
    ∷ backup
    ∷ []

abbrev query : JobQuery
query = record { status = none; workspace_id = none; tag = none; limit = 2 }

first_page :
    list_jobs first_letter 7 query none jobs
    ≡ ok ((record backup { id = 3; name = 97 ∷ [] } ∷ backup ∷ []), some (98 ∷ []))
unfolding list_jobs by_name insert_named
first_page = refl
