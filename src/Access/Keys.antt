-- ===== src/Access/Keys.antt =====
-- The API keys of cronsentinel/routers/org.py: `create_key` and `revoke_key`, with their sessions.
use jobwatch.Prelude.{
  ℕ, Bool, true, false, ◌&&◌, not, none, some, [], ◌∷◌, ◌++◌, ◌==◌, is_some, any_of, update_where,
}
use jobwatch.Db.{Uuid}
use jobwatch.Http.{Reply, ok, ◌>>=◌, raise_if}
use jobwatch.Access.{
  Role, admin, owner, needs, Principal, Text, eq_text, Crypto, hash_secret, generate_api_key,
  ApiKey, Accounts, audit, key_create, key_revoke,
}

abbrev pub is_owner : Role → Bool
is_owner owner = true
is_owner _ = false

-- The row of INSERT INTO api_keys, with the identifier that the database makes up.
abbrev pub new_key : Crypto → Principal → Role → Uuid → Text → Text → ApiKey
new_key c p role id prefix raw = record {
  id = id;
  org_id = p.org_id;
  prefix = prefix;
  key_hash = hash_secret c raw;
  role = role;
  last_used_at = none;
  revoked_at = none;
}

abbrev pub with_key : Principal → ApiKey → Accounts → Accounts
with_key p k a = record a {
  api_keys = a.api_keys ++ (k ∷ []);
  audit_logs = a.audit_logs ++ (audit p key_create k.id ∷ []);
}

-- A prefix that a row has already is refused by its UNIQUE constraint, which nothing catches. The answer is the key.
unfoldable pub create_key :
    Crypto → Principal → Role → Uuid → Text → Text → Accounts → Reply (Text × Accounts)
unfolding generate_api_key needs
create_key c p role id digits secret a =
    let (prefix, raw) = generate_api_key digits secret in
    needs admin p >>= λ _. raise_if (is_owner role) 400 >>= λ _.
    raise_if (any_of (λ (k : ApiKey). eq_text k.prefix prefix) a.api_keys) 500 >>= λ _.
    ok (raw, with_key p (new_key c p role id prefix raw) a)

-- What the session of the caller's organisation sees, and the statement asks for.
abbrev pub is_revocable : Principal → Uuid → ApiKey → Bool
is_revocable p id k = (k.id == id && k.org_id == p.org_id) && not (is_some k.revoked_at)

abbrev pub revoke_at : ℕ → ApiKey → ApiKey
revoke_at now k = record k { revoked_at = some now }

abbrev pub with_revoked : ℕ → Principal → Uuid → Accounts → Accounts
with_revoked now p id a = record a {
  api_keys = update_where (is_revocable p id) (revoke_at now) a.api_keys;
  audit_logs = a.audit_logs ++ (audit p key_revoke id ∷ []);
}

unfoldable pub revoke_key : ℕ → Principal → Uuid → Accounts → Reply Accounts
unfolding needs
revoke_key now p id a = needs admin p >>= λ _.
    raise_if (not (any_of (is_revocable p id) a.api_keys)) 404 >>= λ _. ok (with_revoked now p id a)
