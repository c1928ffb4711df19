-- ===== src/Jobs/Listing/Pages.antt =====
-- The pages of `list_jobs` of routers/jobs.py, one after the other.
use jobwatch.Prelude.{ℕ, Option, List, keep_if}
use jobwatch.Db.{Uuid, Job}
use jobwatch.Access.{Text}
use jobwatch.Jobs.Listing.{JobQuery, is_listed, is_after, by_name}

module _ (rank : Text → ℕ) (org : Uuid) (q : JobQuery) (jobs : List Job) where
  abbrev pub listed : List Job
  listed = keep_if (is_listed org q) (by_name rank jobs)

  abbrev behind : Option Text → List Job
  behind cursor = keep_if (is_after rank cursor) listed
