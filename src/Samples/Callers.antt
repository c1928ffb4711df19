-- ===== src/Samples/Callers.antt =====
-- An administrator, a session and an API key.
use jobwatch.Prelude.{◌≡◌, refl, false, ◌&&◌, none, some, [], ◌∷◌, ◌==◌, leb}
use jobwatch.Http.{Reply, ok}
use jobwatch.Access.{
  developer, admin, Principal, Text, ApiKey, Accounts, principal_from_api_key, key_principal,
  generate_api_key, prefix_of, verify_secret, fast, at_least, needs,
}
use jobwatch.Access.Keys.{create_key, revoke_key, with_key, new_key, with_revoked}
use jobwatch.Access.RoundTrip.{valid-issue, create_key-accepted, revoke_key-refused}
use jobwatch.Access.Current.{
  session, Request, post, issue, valid, current_principal, limited, session_principal, enforce,
}
use jobwatch.Ratelimit.{check, script}
use jobwatch.Samples.Memory.{toy, toy-IsSigned}

abbrev pub ada : Principal
ada = record { org_id = 7; role = admin; user_id = some 1; api_key_id = none }

abbrev accounts : Accounts
accounts = record {
  api_keys = [];
  memberships = record { user_id = 1; org_id = 7; role = admin } ∷ [];
  users = record { id = 1; keycloak_sub = some 90 } ∷ [];
  audit_logs = [];
  limits = λ k. [];
}

-- A write of Ada's browser, with the token that it was given.
abbrev write : Request
write = record {
  now = 50000;
  now_s = 50;
  method = post;
  x_api_key = none;
  cookie = session (record { sub = 90; uid = 1; org_id = some 7 });
  csrf_token = some (90 ∷ 43200 ∷ []);
  bearer = none;
  x_org_id = none;
}

-- Without the token the write is refused.
forged :
    (current_principal toy 600 (record write { csrf_token = none }) accounts).0 ≡ Reply.raised 403
unfolding current_principal session_principal enforce valid limited check script
forged = refl

valid-issue_example : valid toy 43200 (some (issue toy 0 90)) 90 ≡ leb 43200 43200 && 90 == 90
valid-issue_example = valid-issue toy 0 43200 90 90 toy-IsSigned

abbrev digits : Text
digits = 97 ∷ 98 ∷ []

abbrev secret : Text
secret = 46 ∷ 120 ∷ []

abbrev with_ci : Accounts
with_ci =
    with_key ada
      (new_key toy ada developer 5 (generate_api_key digits secret).0
        (generate_api_key digits secret).1)
      accounts

created :
    create_key toy ada developer 5 digits secret accounts
    ≡ ok ((generate_api_key digits secret).1, with_ci)
unfolding create_key generate_api_key needs at_least
created = refl

create_key-accepted_example :
    (row : ApiKey × Accounts) × (principal_from_api_key toy 60
        (generate_api_key digits secret).1
        with_ci
      ≡ ok row)
    × (key_principal row.0
        ≡ record { org_id = 7; role = developer; user_id = none; api_key_id = some 5 })
create_key-accepted_example =
    create_key-accepted toy ada developer 5 digits secret (generate_api_key digits secret).1 60
      accounts with_ci (refl, (refl, tt)) created

-- Another key, which stays when the first is revoked.
abbrev other_raw : Text
other_raw = 120 ∷ 46 ∷ 121 ∷ []

abbrev other_key : ApiKey
other_key = record {
  id = 6;
  org_id = 7;
  prefix = 120 ∷ [];
  key_hash = fast 3;
  role = developer;
  last_used_at = none;
  revoked_at = none;
}

abbrev two_keys : Accounts
two_keys = record accounts { api_keys = record other_key { id = 5 } ∷ other_key ∷ [] }

abbrev one_left : Accounts
one_left = with_revoked 70 ada 5 two_keys

revoked_five : revoke_key 70 ada 5 two_keys ≡ ok one_left
unfolding revoke_key needs at_least
revoked_five = refl

abbrev used : ApiKey × Accounts
used = (
  other_key,
  record one_left {
    api_keys =
        record other_key { id = 5; revoked_at = some 70 }
        ∷ record other_key { last_used_at = some 80 }
        ∷ [];
  },
)

still_in : principal_from_api_key toy 80 other_raw one_left ≡ ok used
unfolding principal_from_api_key prefix_of verify_secret
still_in = refl

revoke_key-refused_example : used.0.id == 5 && used.0.org_id == ada.org_id ≡ false
revoke_key-refused_example =
    revoke_key-refused toy ada 5 other_raw 70 80 two_keys one_left used revoked_five still_in
