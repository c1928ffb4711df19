-- ===== src/Samples/Finds.antt =====
-- An agent that finds three jobs, two with one name, on a plan of two jobs.
use jobwatch.Prelude.{suc, ◌+◌, ◌≡◌, ◌==◌, refl, false, none, some, [], ◌∷◌, length, map}
use jobwatch.Discovery.{
  JobRow, DiscoveredJob, Found, digits, name_at, taken, free_name, put_token, discover,
  discover_all, discovery,
}
use jobwatch.Discovery.Names.{free_name-Free}

abbrev cron_job : DiscoveredJob
cron_job = record {
  fingerprint = 60;
  name = 98 ∷ [];
  schedule = some 5;
  command = 1;
  user = 0;
  working_dir = none;
}

abbrev other : DiscoveredJob
other = record cron_job { fingerprint = 61; schedule = some 6 }

abbrev third : DiscoveredJob
third = record cron_job { fingerprint = 62 }

abbrev found : Found
found =
    (discovery (λ s. s == 5) (λ s. 100) (λ n. (n + 20, n + 50)) 7 8 (some 80) (some 2) 3 5
      (cron_job ∷ other ∷ third ∷ cron_job ∷ []) [] []).0

names : map (λ (r : JobRow). r.name) found.rows ≡ ((98 ∷ []) ∷ (98 ∷ 45 ∷ 50 ∷ []) ∷ [])
unfolding discovery discover_all discover free_name taken name_at digits put_token
names = refl

tokens : found.tokens ≡ ((60, 50) ∷ (61, 51) ∷ [])
unfolding discovery discover_all discover free_name taken name_at digits put_token
tokens = refl

free_name-Free_example :
    taken 8 (free_name (suc (length found.rows)) 8 (98 ∷ []) 1 found.rows) found.rows ≡ false
free_name-Free_example = free_name-Free 8 (98 ∷ []) found.rows
