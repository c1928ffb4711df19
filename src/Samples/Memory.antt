-- ===== src/Samples/Memory.antt =====
-- Redis and the cryptography as small functions that keep what is documented of them.
use jobwatch.Prelude.{
  ℕ, ◌+◌, ◌≤◌, ◌<◌, ◌≡◌, refl, true, false, inl, inr, Option, none, some, [], ◌∷◌, ◌==◌, ltb, leb,
  length, Bool-cases, if◌then◌else◌, arith,
}
use jobwatch.Redis.{Redis, IsRedis}
use jobwatch.Access.{Text, Crypto}
use jobwatch.Access.RoundTrip.{IsSigned}

module _ (V : Type 0) where
  abbrev pub Entries : Type 0
  Entries = ℕ → Option (V × ℕ)

  abbrev pub alive : ℕ → Option (V × ℕ) → Option V
  alive now none = none
  alive now (some (v, end)) = if ltb now end then some v else none

  abbrev pub memory : Redis V
  memory = record {
    State = Entries;
    get = λ now k s. alive now (s k);
    setex = λ now key ttl v s k. if k == key then some (v, now + ttl) else s k;
    delete = λ key s k. if k == key then none else s k;
  }

  pub memory-IsRedis : IsRedis memory
  memory-IsRedis = record {
    get-setex = λ now later key k ttl v s le. elim (Bool-cases (k == key)) [
      | inl t ↦ rw t refl
      | inr f ↦ rw f refl
    ];
    get-delete =
        λ now key k s. elim (Bool-cases (k == key)) [ inl t ↦ rw t refl | inr f ↦ rw f refl ];
  }

-- A digest that tells texts of different lengths apart.
abbrev pub toy_decode : ℕ → Text → Option ℕ
toy_decode now (sub ∷ exp ∷ []) = if leb now exp then some sub else none
toy_decode now _ = none

abbrev pub toy : Crypto
toy = record {
  sha256 = λ t. length t;
  argon2_verify = λ h t. h == length t;
  encode = λ sub exp. sub ∷ exp ∷ [];
  decode = toy_decode;
}

in_time : (now exp : ℕ) → now ≤ exp → leb now exp ≡ true
in_time now exp h = ground arith

too_late : (now exp : ℕ) → exp < now → leb now exp ≡ false
too_late now exp h = ground arith

pub toy-IsSigned : IsSigned toy
toy-IsSigned = record {
  reads = λ now sub exp h. rw (in_time now exp h) refl;
  expires = λ now sub exp h. rw (too_late now exp h) refl;
  not_empty = λ sub exp. (sub, exp ∷ [], refl);
}
