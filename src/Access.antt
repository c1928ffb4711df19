-- ===== src/Access.antt =====
-- cronsentinel/auth.py and csrf.py: who a request speaks for, and what the role allows. SHA-256, argon2 and signed
-- tokens are the parameter Crypto; the session cookie is read by routers/auth.py's `read_session`.
pub mod Current
pub mod Grants
pub mod Keys
pub mod RoundTrip
use jobwatch.Prelude.{
  ℕ, ◌+◌, ◌*◌, ◌≤◌, ◌≡◌, Bool, true, false, ◌&&◌, not, Option, none, some, List, [], ◌∷◌, ◌++◌,
  ◌==◌, leb, if◌then◌else◌, is_some, coalesce, find_first, update_where,
}
use jobwatch.Db.{Uuid}
use jobwatch.Http.{Reply, ok, raised, ◌>>=◌, raise_if, found_or}

pub data Role : Type 0 where
  viewer developer sre devops admin owner : Role

-- ROLE_ORDER.index
abbrev pub role_index : Role → ℕ
role_index viewer = 0
role_index developer = 1
role_index sre = 2
role_index devops = 3
role_index admin = 4
role_index owner = 5

pub record Principal : Type 0 where
  pub org_id : Uuid
  pub role : Role
  pub user_id : Option Uuid
  pub api_key_id : Option Uuid

unfoldable pub at_least : Principal → Role → Bool
at_least p role = leb (role_index role) (role_index p.role)

-- A text, as its codes.
abbrev pub Text : Type 0
Text = List ℕ

abbrev pub eq_text : Text → Text → Bool
eq_text [] [] = true
eq_text (x ∷ xs) (y ∷ ys) = x == y && eq_text xs ys
eq_text _ _ = false

-- A stored hash: with the prefix "sha256$", or an argon2 hash from before it.
pub data Hashed : Type 0 where
  fast : ℕ → Hashed
  legacy : ℕ → Hashed

-- The cryptography that auth.py and csrf.py call. A token that does not verify, or has expired, decodes to nothing.
pub record Crypto : Type 0 where
  pub sha256 : Text → ℕ
  pub argon2_verify : ℕ → Text → Bool
  pub encode : ℕ → ℕ → Text
  pub decode : ℕ → Text → Option ℕ

unfoldable pub hash_secret : Crypto → Text → Hashed
hash_secret c raw = fast (c.sha256 raw)

unfoldable pub verify_secret : Crypto → Text → Hashed → Bool
verify_secret c raw (fast digest) = digest == c.sha256 raw
verify_secret c raw (legacy h) = c.argon2_verify h raw

abbrev pub needs_rehash : Hashed → Bool
needs_rehash (fast digest) = false
needs_rehash (legacy h) = true

abbrev pub dot : ℕ
dot = 46

-- "cs_" and the hexadecimal digits; then a dot and the secret.
unfoldable pub generate_api_key : Text → Text → Text × Text
generate_api_key digits secret =
    let prefix : Text = 99 ∷ 115 ∷ 95 ∷ digits in (prefix, prefix ++ (dot ∷ secret))

-- raw.split(".", 1)[0]
unfoldable pub prefix_of : Text → Text
prefix_of [] = []
prefix_of (c ∷ cs) = let rest = c ∷ prefix_of cs in if c == dot then [] else rest

-- A row of api_keys.
pub record ApiKey : Type 0 where
  pub id : Uuid
  pub org_id : Uuid
  pub prefix : Text
  pub key_hash : Hashed
  pub role : Role
  pub last_used_at : Option ℕ
  pub revoked_at : Option ℕ

pub record Membership : Type 0 where
  pub user_id : Uuid
  pub org_id : Uuid
  pub role : Role

-- A row of users; keycloak_sub may be NULL.
pub record User : Type 0 where
  pub id : Uuid
  pub keycloak_sub : Option ℕ

pub data ActorType : Type 0 where
  by_user by_key by_agent : ActorType

pub data Action : Type 0 where
  workspace_create key_create key_revoke bootstrap_token agent_rotate agent_revoke agent_enroll :
      Action
  dependency_add incident_ack incident_resolve job_create job_update job_delete : Action

-- A row of audit_logs; the address and the payload are left out.
pub record AuditRow : Type 0 where
  pub org_id : Uuid
  pub actor_id : Option Uuid
  pub actor_type : ActorType
  pub action : Action
  pub target_id : ℕ

-- The key of a sliding window: the kind of caller and its identifier.
pub data LimitKey : Type 0 where
  key_of user_of : Uuid → LimitKey

abbrev pub eq_limit : LimitKey → LimitKey → Bool
eq_limit (key_of a) (key_of b) = a == b
eq_limit (user_of a) (user_of b) = a == b
eq_limit _ _ = false

pub record Accounts : Type 0 where
  pub api_keys : List ApiKey
  pub memberships : List Membership
  pub users : List User
  pub audit_logs : List AuditRow
  pub limits : LimitKey → List ℕ

abbrev pub is_live_key : Text → ApiKey → Bool
is_live_key prefix k = eq_text k.prefix prefix && not (is_some k.revoked_at)

abbrev pub touch_key : Crypto → ℕ → Text → ApiKey → ApiKey
touch_key c now raw k = record k {
  last_used_at = some now;
  key_hash = if needs_rehash k.key_hash then hash_secret c raw else k.key_hash;
}

abbrev pub key_principal : ApiKey → Principal
key_principal k = record {
  org_id = k.org_id;
  role = k.role;
  user_id = none;
  api_key_id = some k.id;
}

-- `_principal_from_api_key`
unfoldable pub principal_from_api_key : Crypto → ℕ → Text → Accounts → Reply (ApiKey × Accounts)
unfolding prefix_of verify_secret
principal_from_api_key c now raw a =
    found_or 401 (find_first (is_live_key (prefix_of raw)) a.api_keys) >>= λ (k : ApiKey).
    raise_if (not (verify_secret c raw k.key_hash)) 401 >>= λ _. ok (
      k,
      record a {
        api_keys = update_where (λ (r : ApiKey). r.id == k.id) (touch_key c now raw) a.api_keys;
      },
    )

abbrev pub is_member : Uuid → Uuid → Membership → Bool
is_member user org m = m.user_id == user && m.org_id == org

abbrev pub has_sub : ℕ → User → Bool
has_sub sub u = elim u.keycloak_sub [ none ↦ false | some s ↦ s == sub ]

-- users u JOIN memberships m: the first row of a user with this subject and a membership in the organisation.
abbrev pub joined : ℕ → Uuid → List Membership → List User → Option (User × Membership)
joined sub org ms [] = none
joined sub org ms (u ∷ us) =
    let rest = joined sub org ms us in
    if has_sub sub u
    then elim (find_first (is_member u.id org) ms) [ none ↦ rest | some m ↦ some (u, m) ]
    else rest

abbrev pub user_principal : Uuid → Role → Uuid → Principal
user_principal org role user = record {
  org_id = org;
  role = role;
  user_id = some user;
  api_key_id = none;
}

-- `_principal_from_jwt`: `claims` is the subject of a token that Keycloak has signed.
unfoldable pub principal_from_jwt : Option ℕ → Uuid → Accounts → Reply Principal
principal_from_jwt claims org a = found_or 401 claims >>= λ sub.
    found_or 403 (joined sub org a.memberships a.users) >>= λ (row : User × Membership).
    ok (user_principal org row.1.role row.0.id)

abbrev pub or_else {ℓ} : {A : Type ℓ} → Option A → Option A → Option A
or_else none b = b
or_else (some a) b = some a

-- The row that `audit` writes.
unfoldable pub audit : Principal → Action → ℕ → AuditRow
audit p action target = record {
  org_id = p.org_id;
  actor_id = or_else p.user_id p.api_key_id;
  actor_type = if is_some p.user_id then by_user else by_key;
  action = action;
  target_id = target;
}

-- The dependency `require_role(role)` of a handler whose caller `current_principal` has let in.
unfoldable pub needs : Role → Principal → Reply (Unit {0})
unfolding at_least
needs role p = raise_if (not (at_least p role)) 403
