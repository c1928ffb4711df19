-- ===== src/Access/Current.antt =====
-- `current_principal` and `require_role` of cronsentinel/auth.py, and csrf.py.
use jobwatch.Prelude.{
  ℕ, ◌+◌, ◌*◌, Bool, true, false, not, Option, none, some, [], ◌∷◌, ◌==◌, if◌then◌else◌, find_first,
}
use jobwatch.Db.{Uuid}
use jobwatch.Http.{Reply, ok, raised, ◌>>=◌, raise_if, found_or, unless}
use jobwatch.Ratelimit.{check}
use jobwatch.Access.{
  Role, Principal, needs, Text, Crypto, ApiKey, Membership, LimitKey, key_of, user_of, eq_limit,
  Accounts, principal_from_api_key, key_principal, is_member, user_principal, principal_from_jwt,
}

pub data Method : Type 0 where
  get head options trace post put patch delete : Method

-- SAFE_METHODS
abbrev pub is_safe : Method → Bool
is_safe get = true
is_safe head = true
is_safe options = true
is_safe trace = true
is_safe _ = false

abbrev pub ttl_s : ℕ
ttl_s = 12 * 3600

-- `issue` at an instant in seconds.
unfoldable pub issue : Crypto → ℕ → ℕ → Text
issue c now sub = c.encode sub (now + ttl_s)

abbrev pub decodes_to : Option ℕ → ℕ → Bool
decodes_to none sub = false
decodes_to (some s) sub = s == sub

-- An absent token and an empty one are not valid.
unfoldable pub valid : Crypto → ℕ → Option Text → ℕ → Bool
valid c now none sub = false
valid c now (some []) sub = false
valid c now (some (x ∷ xs)) sub = decodes_to (c.decode now (x ∷ xs)) sub

unfoldable pub enforce : Crypto → ℕ → Method → Option Text → ℕ → Reply (Unit {0})
enforce c now method token sub =
    if is_safe method then ok tt else raise_if (not (valid c now token sub)) 403

-- The claims of a session cookie that verifies.
pub record Session : Type 0 where
  pub sub : ℕ
  pub uid : Uuid
  pub org_id : Option Uuid

-- The cookie: absent, not valid any more, or a session.
pub data Cookie : Type 0 where
  absent stale : Cookie
  session : Session → Cookie

-- A bearer token with what the decoding of it claims.
pub record Bearer : Type 0 where
  pub claims : Option ℕ

-- What `current_principal` reads; an empty header counts as absent. `now` is in milliseconds.
pub record Request : Type 0 where
  pub now : ℕ
  pub now_s : ℕ
  pub method : Method
  pub x_api_key : Option Text
  pub cookie : Cookie
  pub csrf_token : Option Text
  pub bearer : Option Bearer
  pub x_org_id : Option Uuid

-- ratelimit.check, whose set is kept in Redis whatever it answers.
unfoldable pub limited : ℕ → ℕ → LimitKey → Principal → Accounts → Reply Principal × Accounts
unfolding check
limited now rate key p a =
    let r = check now rate (a.limits key) in
    let after = record a { limits = λ k. if eq_limit k key then r.hits else a.limits k } in
    (unless r.raised p, after)

-- The branch of the session cookie.
unfoldable pub session_principal : Crypto → Request → Session → Accounts → Reply Principal
unfolding enforce
session_principal c r sd a = found_or 403 sd.org_id >>= λ org.
    found_or 403 (find_first (is_member sd.uid org) a.memberships) >>= λ (m : Membership).
    enforce c r.now_s r.method r.csrf_token sd.sub >>= λ _. ok (user_principal org m.role sd.uid)

abbrev pub bearer_principal : Request → Bearer → Accounts → Reply Principal
bearer_principal r b a = found_or 400 r.x_org_id >>= λ org. principal_from_jwt b.claims org a

-- The limit of a person: `user:` and the identifier.
abbrev pub limit_user : ℕ → ℕ → Accounts → Reply Principal → Reply Principal × Accounts
limit_user now rate a (raised code) = (raised code, a)
limit_user now rate a (ok p) =
    limited now rate (user_of (elim p.user_id [ none ↦ 0 | some u ↦ u ])) p a

abbrev pub limit_key : ℕ → ℕ → Accounts → Reply (ApiKey × Accounts) → Reply Principal × Accounts
limit_key now rate a (raised code) = (raised code, a)
limit_key now rate a (ok (k, after)) = limited now rate (key_of k.id) (key_principal k) after

abbrev pub cookie_or_bearer :
    Crypto → ℕ → Request → Accounts → Cookie → Option Bearer → Reply Principal × Accounts
cookie_or_bearer c rate r a (session sd) b = limit_user r.now rate a (session_principal c r sd a)
cookie_or_bearer c rate r a stale b = (raised 401, a)
cookie_or_bearer c rate r a absent (some b) = limit_user r.now rate a (bearer_principal r b a)
cookie_or_bearer c rate r a absent none = (raised 401, a)

abbrev pub by_header : Crypto → ℕ → Request → Accounts → Option Text → Reply Principal × Accounts
by_header c rate r a (some raw) = limit_key r.now rate a (principal_from_api_key c r.now_s raw a)
by_header c rate r a none = cookie_or_bearer c rate r a r.cookie r.bearer

unfoldable pub current_principal : Crypto → ℕ → Request → Accounts → Reply Principal × Accounts
unfolding session_principal limited principal_from_api_key principal_from_jwt
current_principal c rate r a = by_header c rate r a r.x_api_key

-- The dependency that `require_role` makes of it.
unfoldable pub require_role : Role → Reply Principal → Reply Principal
unfolding needs
require_role role answer = answer >>= λ p. needs role p >>= λ _. ok p
