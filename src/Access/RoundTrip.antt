-- ===== src/Access/RoundTrip.antt =====
-- What auth.py and csrf.py give out they accept again, and a revoked key they do not.
use jobwatch.Prelude.{
  ℕ, ◌+◌, ◌≤◌, ◌<◌, ◌≡◌, ◌∙◌, ap, sym, refl, subst, Bool, true, false, ◌&&◌, not, inl, inr, none,
  some, List, [], ◌∷◌, ◌++◌, Mem, ◌==◌, ==_iff, leb, leb→le, arith, find_first, any_of, All-weaken,
  any_of-false, All, Bool-cases, and-true, and-false, is_some, Mem-update_where, update_where,
  update_if,
}
use jobwatch.Db.{Uuid}
use jobwatch.Http.{ok, ok-injective, past-guard, past-first}
use jobwatch.Access.{
  Role, admin, Principal, at_least, Text, eq_text, dot, Crypto, hash_secret, verify_secret,
  generate_api_key, prefix_of, ApiKey, Accounts, is_live_key, principal_from_api_key, key_principal,
  touch_key,
}
use jobwatch.Access.Keys.{
  new_key, with_key, create_key, is_owner, is_revocable, revoke_at, with_revoked, revoke_key,
}
use jobwatch.Access.Current.{issue, valid, decodes_to, ttl_s}

-- What is documented of signed tokens: one is read until it has expired, and then no more.
pub record IsSigned (c : Crypto) : Type 0 where
  pub reads : (now sub exp : ℕ) → now ≤ exp → c.decode now (c.encode sub exp) ≡ some sub
  pub expires : (now sub exp : ℕ) → exp < now → c.decode now (c.encode sub exp) ≡ none
  pub not_empty : (sub exp : ℕ) → (x : ℕ) × (xs : Text) × (c.encode sub exp ≡ x ∷ xs)

valid-decodes :
    (c : Crypto) (now : ℕ) (t : Text) (sub : ℕ)
    → (x : ℕ) × (xs : Text) × (t ≡ x ∷ xs)
    → valid c now (some t) sub ≡ decodes_to (c.decode now t) sub
unfolding valid
valid-decodes c now [] sub (x, xs, e) = cc
valid-decodes c now (y ∷ ys) sub e = refl

-- A CSRF token is valid for its subject and for no other, for twelve hours after it was issued and no longer.
pub valid-issue :
    (c : Crypto) (now later sub other : ℕ)
    → IsSigned c
    → valid c later (some (issue c now sub)) other ≡ leb later (now + ttl_s) && sub == other
unfolding issue
valid-issue c now later sub other signed =
    let exp = now + ttl_s in
    valid-decodes c later (c.encode sub exp) other (signed.not_empty sub exp)
    ∙ elim (Bool-cases (leb later exp)) [
      | inl early ↦ rw (early, signed.reads later sub exp (leb→le _ _ early)) refl
      | inr late ↦ rw (late, signed.expires later sub exp (ground arith)) refl
    ]

-- The digits of a prefix hold no dot.
abbrev pub HasNoDot : Text → Type 0
HasNoDot = All (λ d. (d == dot) ≡ false)

prefix_of-append : (p secret : Text) → HasNoDot p → prefix_of (p ++ (dot ∷ secret)) ≡ p
unfolding prefix_of
prefix_of-append [] secret h = refl
prefix_of-append (d ∷ ds) secret h = rw h.0 (ap (λ t. d ∷ t) (prefix_of-append ds secret h.1))

eq_text_refl : (t : Text) → eq_text t t ≡ true
eq_text_refl [] = refl
eq_text_refl (x ∷ xs) = rw ((==_iff x x).1 refl, eq_text_refl xs)

find_first-append :
    {A : Type 0} (q : A → Bool) (xs : List A) (a : A)
    → All (λ x. q x ≡ false) xs
    → q a ≡ true
    → find_first q (xs ++ (a ∷ [])) ≡ some a
find_first-append q [] a h t = rw t
find_first-append q (x ∷ xs) a h t = rw h.0 (find_first-append q xs a h.1 t)

pub verify-hash : (c : Crypto) (raw : Text) → verify_secret c raw (hash_secret c raw) ≡ true
unfolding verify_secret hash_secret
verify-hash c raw = (==_iff _ _).1 refl

abbrev text_of : Text → Text → Text
text_of digits secret = (generate_api_key digits secret).1

-- The key that stands behind the others, where none of them has its prefix.
new_key-found :
    (c : Crypto) (p : Principal) (role : Role) (id : Uuid) (digits secret : Text)
    (keys : List ApiKey)
    → HasNoDot digits
    → any_of (λ (k : ApiKey). eq_text k.prefix (generate_api_key digits secret).0) keys ≡ false
    → let k = new_key c p role id (generate_api_key digits secret).0 (text_of digits secret) in
      find_first (is_live_key (prefix_of (text_of digits secret))) (keys ++ (k ∷ [])) ≡ some k
unfolding generate_api_key
new_key-found c p role id digits secret keys no_dot free =
    let prefix : Text = 99 ∷ 115 ∷ 95 ∷ digits in
    let k = new_key c p role id prefix (prefix ++ (dot ∷ secret)) in
    let whole : prefix_of (prefix ++ (dot ∷ secret)) ≡ prefix =
      prefix_of-append prefix secret (refl, (refl, (refl, no_dot))) in
    ap (λ t. find_first (is_live_key t) (keys ++ (k ∷ []))) whole
    ∙ find_first-append (is_live_key prefix) keys k
        (All-weaken keys (λ x n. rw n refl) (any_of-false _ keys free))
        (rw (eq_text_refl prefix) refl)

found-accepted :
    (c : Crypto) (now : ℕ) (raw : Text) (a : Accounts) (k : ApiKey)
    → find_first (is_live_key (prefix_of raw)) a.api_keys ≡ some k
    → verify_secret c raw k.key_hash ≡ true
    → (row : ApiKey × Accounts) × (principal_from_api_key c now raw a ≡ ok row) × (row.0 ≡ k)
unfolding principal_from_api_key
found-accepted c now raw a k found verified = (
  (
    k,
    record a {
      api_keys = update_where (λ (r : ApiKey). r.id == k.id) (touch_key c now raw) a.api_keys;
    },
  ),
  rw (found, verified) refl,
  refl,
)

-- A row that the UPDATE has left live is none of those that it was to revoke.
live_now :
    (now : ℕ) (p : Principal) (id : Uuid) (t : Text) (b k : ApiKey)
    → k ≡ update_if (is_revocable p id) (revoke_at now) b
    → is_live_key t k ≡ true
    → k.id == id && k.org_id == p.org_id ≡ false
live_now now p id t b k e live = elim (Bool-cases (is_revocable p id b)) [
  | inl t' ↦
      let revoked = subst (λ (x : ApiKey). is_live_key t x ≡ true) (rw t' at e) live in
      cc ((and-true (eq_text b.prefix t) false revoked).1)
  | inr n ↦
      let same : k ≡ b = rw n at e in
      let unrevoked =
        (and-true (eq_text b.prefix t) (not (is_some b.revoked_at))
          (subst (λ (x : ApiKey). is_live_key t x ≡ true) same live)).1 in
      subst (λ (x : ApiKey). x.id == id && x.org_id == p.org_id ≡ false) (sym same)
        (and-false _ _ n unrevoked)
]

-- A key that an administrator has just created is accepted, for the organisation and with the role that it was created with.
pub create_key-accepted :
    (c : Crypto) (p : Principal) (role : Role) (id : Uuid) (digits secret raw : Text) (now : ℕ)
    (a after : Accounts)
    → HasNoDot digits
    → create_key c p role id digits secret a ≡ ok (raw, after)
    → (row : ApiKey × Accounts) × (principal_from_api_key c now raw after ≡ ok row)
      × (key_principal row.0
          ≡ record { org_id = p.org_id; role = role; user_id = none; api_key_id = some id })
unfolding create_key principal_from_api_key
create_key-accepted c p role id digits secret raw now a after no_dot h =
    let (is_admin, rest'') = past-guard (not (at_least p admin)) 403 _ h in
    let (may, rest) = past-guard (is_owner role) 400 _ rest'' in
    let (free, end) = past-guard _ 500 _ rest in
    let k = new_key c p role id (generate_api_key digits secret).0 (text_of digits secret) in
    let found = new_key-found c p role id digits secret a.api_keys no_dot free in
    subst
      (λ (x : Text × Accounts).
        (row : ApiKey × Accounts) × (principal_from_api_key c now x.0 x.1 ≡ ok row)
        × (key_principal row.0
            ≡ record { org_id = p.org_id; role = role; user_id = none; api_key_id = some id }))
      (ok-injective end)
      (let (row, accepted, same) =
          found-accepted c now (text_of digits secret) (with_key p k a) k found (verify-hash c _) in
        (row, accepted, ap key_principal same))

-- After a key is revoked, no request is accepted by a key with that identifier in the organisation.
pub revoke_key-refused :
    (c : Crypto) (p : Principal) (id : Uuid) (raw : Text) (now later : ℕ) (a after : Accounts)
    (row : ApiKey × Accounts)
    → revoke_key now p id a ≡ ok after
    → principal_from_api_key c later raw after ≡ ok row
    → row.0.id == id && row.0.org_id == p.org_id ≡ false
unfolding revoke_key principal_from_api_key
revoke_key-refused c p id raw now later a after row h accepted =
    let (is_admin, rest') = past-guard (not (at_least p admin)) 403 _ h in
    let (some_row, end) =
      past-guard (not (any_of (is_revocable p id) a.api_keys)) 404
        (λ _. ok (with_revoked now p id a)) rest' in
    let (k, mem, live, rest) =
      past-first 401 (is_live_key (prefix_of raw)) after.api_keys _ accepted in
    let (checked, end') = past-guard (not (verify_secret c raw k.key_hash)) 401 _ rest in
    let same : k ≡ row.0 = ap (λ (x : ApiKey × Accounts). x.0) (ok-injective end') in
    let from =
      Mem-update_where (is_revocable p id) (revoke_at now) a.api_keys
        (subst (λ (x : Accounts). Mem k x.api_keys) (sym (ok-injective end)) mem) in
    subst (λ (x : ApiKey). x.id == id && x.org_id == p.org_id ≡ false) same
      (live_now now p id (prefix_of raw) from.0 k from.2 live)
