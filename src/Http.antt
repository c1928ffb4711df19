-- ===== src/Http.antt =====
-- What a handler of cronsentinel/routers answers: a value, or the status of the HTTPException that it raises. A session
-- of db.py that is left by an exception is rolled back, so the tables come with the value only.
use jobwatch.Prelude.{
  ℕ, Bool, true, false, Option, none, some, List, ◌≡◌, refl, ap, Mem, find_first, find_first-holds,
}

pub data Reply {ℓ} (A : Type ℓ) : Type ℓ where
  ok : A → Reply A
  raised : ℕ → Reply A

-- The rest of a handler, which an exception skips.
infixl 5 ◌>>=◌
abbrev pub ◌>>=◌ {ℓ κ} : {A : Type ℓ} {B : Type κ} → Reply A → (A → Reply B) → Reply B
answer >>= rest = elim answer [ raised code ↦ raised code | ok value ↦ rest value ]

-- `if ...: raise HTTPException(code)`
abbrev pub raise_if : Bool → ℕ → Reply (Unit {0})
raise_if true code = raised code
raise_if false code = ok tt

-- The answer of a handler behind ratelimit.check, which may raise.
abbrev pub unless {ℓ} : {A : Type ℓ} → Option ℕ → A → Reply A
unless none a = ok a
unless (some code) a = raised code

-- `if not row: raise HTTPException(code)`
abbrev pub found_or {ℓ} : {A : Type ℓ} → ℕ → Option A → Reply A
found_or code none = raised code
found_or code (some a) = ok a

pub ok-injective {ℓ} : {A : Type ℓ} {a b : A} → ok a ≡ ok b → a ≡ b
ok-injective {A} {a} h = ap value h
  where
    value : Reply A → A
    value (ok x) = x
    value (raised code) = a

-- What a handler that answers has passed: a guard, a row that must be there, a row of a table.
pub past-guard {ℓ} :
    {B : Type ℓ} (b : Bool) (code : ℕ) (f : Unit {0} → Reply B) {r : B}
    → (raise_if b code >>= f) ≡ ok r
    → (b ≡ false) × (f tt ≡ ok r)
past-guard true code f h = cc
past-guard false code f h = (refl, h)

module _ {ℓ κ} {A : Type ℓ} {B : Type κ} where
  pub past-part :
      (part : Reply A) (rest : A → Reply B) {r : B}
      → (part >>= rest) ≡ ok r
      → (value : A) × (part ≡ ok value) × (rest value ≡ ok r)
  past-part (raised code) rest h = cc
  past-part (ok value) rest h = (value, refl, h)

  pub past-found :
      (code : ℕ) (o : Option A) (f : A → Reply B) {r : B}
      → (found_or code o >>= f) ≡ ok r
      → (a : A) × (o ≡ some a) × (f a ≡ ok r)
  past-found code none f h = cc
  past-found code (some a) f h = (a, refl, h)

  pub past-first :
      (code : ℕ) (p : A → Bool) (xs : List A) (f : A → Reply B) {r : B}
      → (found_or code (find_first p xs) >>= f) ≡ ok r
      → (a : A) × Mem a xs × (p a ≡ true) × (f a ≡ ok r)
  past-first code p xs f h =
      let (a, found, rest) = past-found code (find_first p xs) f h in
      let (holds, mem) = find_first-holds p xs found in (a, mem, holds, rest)
