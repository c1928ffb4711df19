-- ===== src/Access/Grants.antt =====
-- Whom auth.py lets in: every principal comes from a row of the tables and a proof that the caller brings.
use jobwatch.Prelude.{ℕ, ◌≡◌, true, ◌⊎◌, none, some, Mem}
use jobwatch.Db.{Uuid}
use jobwatch.Access.{
  Principal, Text, Crypto, ApiKey, Membership, User, Accounts, verify_secret, prefix_of,
  is_live_key, key_principal, is_member, has_sub, user_principal,
}
use jobwatch.Access.Current.{Request, Session, session, absent, Bearer, is_safe, valid}

-- What lets a principal in, with the row that its role is read from.
pub data Granted (c : Crypto) (r : Request) (a : Accounts) (p : Principal) : Type 0 where
  by_key :
      (raw : Text) (k : ApiKey)
      → r.x_api_key ≡ some raw
      → Mem k a.api_keys
      → is_live_key (prefix_of raw) k ≡ true
      → verify_secret c raw k.key_hash ≡ true
      → p ≡ key_principal k
      → Granted c r a p
  by_session :
      (sd : Session) (org : Uuid) (m : Membership)
      → r.x_api_key ≡ none
      → r.cookie ≡ session sd
      → sd.org_id ≡ some org
      → Mem m a.memberships
      → is_member sd.uid org m ≡ true
      → (is_safe r.method ≡ true) ⊎ (valid c r.now_s r.csrf_token sd.sub ≡ true)
      → p ≡ user_principal org m.role sd.uid
      → Granted c r a p
  by_bearer :
      (b : Bearer) (sub : ℕ) (org : Uuid) (u : User) (m : Membership)
      → r.x_api_key ≡ none
      → r.cookie ≡ absent
      → r.bearer ≡ some b
      → b.claims ≡ some sub
      → r.x_org_id ≡ some org
      → Mem u a.users
      → has_sub sub u ≡ true
      → Mem m a.memberships
      → is_member u.id org m ≡ true
      → p ≡ user_principal org m.role u.id
      → Granted c r a p
