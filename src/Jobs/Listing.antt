-- ===== src/Jobs/Listing.antt =====
-- `list_jobs` of cronsentinel/routers/jobs.py: a page of an organisation's jobs in the order of their names. The rank of a
-- name in the database's collation is an argument; an empty parameter is `none`, and a negative limit is not modelled.
pub mod Order
pub mod Pages
use jobwatch.Prelude.{
  ℕ, zero, suc, Bool, true, false, ◌&&◌, not, Option, none, some, List, [], ◌∷◌, ◌++◌, ◌==◌, ltb,
  leb, if◌then◌else◌, elem, keep_if, take, length,
}
use jobwatch.Status.{JobStatus, eq_status}
use jobwatch.Db.{Uuid, Job}
use jobwatch.Http.{Reply, ok, raised, ◌>>=◌, raise_if}
use jobwatch.Access.{Text}

pub record JobQuery : Type 0 where
  pub status : Option JobStatus
  pub workspace_id : Option Uuid
  pub tag : Option ℕ
  pub limit : ℕ

abbrev pub has_status : Option JobStatus → Job → Bool
has_status none j = true
has_status (some s) j = eq_status j.status s

abbrev pub in_workspace : Option Uuid → Job → Bool
in_workspace none j = true
in_workspace (some w) j = j.workspace_id == w

abbrev pub has_tag : Option ℕ → Job → Bool
has_tag none j = true
has_tag (some t) j = elem t j.tags

abbrev pub is_listed : Uuid → JobQuery → Job → Bool
is_listed org q j =
    j.org_id == org && (has_status q.status j && (in_workspace q.workspace_id j && has_tag q.tag j))

module _ (rank : Text → ℕ) where
  -- name > :cursor
  abbrev pub is_after : Option Text → Job → Bool
  is_after none j = true
  is_after (some c) j = ltb (rank c) (rank j.name)

  -- ORDER BY name
  unfoldable pub insert_named : Job → List Job → List Job
  insert_named a [] = a ∷ []
  insert_named a (j ∷ js) =
      let rest = j ∷ insert_named a js in
      if leb (rank a.name) (rank j.name) then a ∷ j ∷ js else rest

  unfoldable pub by_name : List Job → List Job
  unfolding insert_named
  by_name [] = []
  by_name (j ∷ js) = insert_named j (by_name js)

  abbrev pub last_name : List Job → Option Text
  last_name [] = none
  last_name (j ∷ []) = some j.name
  last_name (j ∷ k ∷ js) = last_name (k ∷ js)

  -- items[-1].name, of which an empty page has none.
  abbrev pub cursor_of : Option Text → Reply (Option Text)
  cursor_of none = raised 500
  cursor_of (some name) = ok (some name)

  abbrev pub next_cursor : Bool → List Job → Reply (Option Text)
  next_cursor false items = ok none
  next_cursor true items = cursor_of (last_name items)

  abbrev pub page_of : ℕ → List Job → Reply (List Job × Option Text)
  page_of limit rows =
      next_cursor (ltb limit (length rows)) (take limit rows) >>= λ next. ok (take limit rows, next)

  -- The handler, behind the check of its parameters.
  unfoldable pub list_jobs :
      Uuid → JobQuery → Option Text → List Job → Reply (List Job × Option Text)
  unfolding by_name
  list_jobs org q cursor jobs = raise_if (ltb 200 q.limit) 422 >>= λ _.
      page_of q.limit
        (take (suc q.limit) (keep_if (is_after cursor) (keep_if (is_listed org q) (by_name jobs))))

  -- A client that follows next_cursor, for so many pages at most.
  unfoldable pub follow : ℕ → Uuid → JobQuery → Option Text → List Job → Reply (List Job)
  unfolding list_jobs
  follow zero org q cursor jobs = raised 500
  follow (suc pages) org q cursor jobs =
      list_jobs org q cursor jobs >>= λ (page : List Job × Option Text). elim page.1 [
        | none ↦ ok page.0
        | some next ↦ follow pages org q (some next) jobs >>= λ rest. ok (page.0 ++ rest)
      ]
