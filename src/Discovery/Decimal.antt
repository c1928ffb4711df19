-- ===== src/Discovery/Decimal.antt =====
-- Numbered names of routers/agents.py differ from one another.
use jobwatch.Prelude.{
  ℕ, zero, suc, ◌+◌, ◌-◌, ◌*◌, ◌/◌, ◌%◌, ◌≤◌, ◌<◌, ◌≡◌, ◌≢◌, ◌∙◌, ap, sym, refl, true, inl, inr, [],
  ◌∷◌, ◌++◌, ◌==◌, ==_iff, ltb, length, length-append, Bool-cases, and-true, arith,
}
use jobwatch.Access.{Text, eq_text}
use jobwatch.Discovery.{digits, dash, name_at}

-- What digits stand for.
unfoldable pub value : ℕ → Text → ℕ
value acc [] = acc
value acc (d ∷ ds) = value (10 * acc + (d - 48)) ds

value-append :
    (acc : ℕ) (ds : Text) (d : ℕ) → value acc (ds ++ (d ∷ [])) ≡ 10 * value acc ds + (d - 48)
unfolding value
value-append acc [] d = refl
value-append acc (c ∷ cs) d = value-append (10 * acc + (c - 48)) cs d

pub value-digits : (fuel n : ℕ) → n < fuel → value 0 (digits fuel n) ≡ n
unfolding value digits
value-digits zero n h = absurd (omega arith)
value-digits (suc fuel) n h = elim (Bool-cases (ltb n 10)) [
  | inl small ↦ rw small (omega arith)
  | inr large ↦
      let low : 10 ≤ n = ground arith in
      let ih = value-digits fuel (n / 10) (omega arith) in
      rw large (rw (value-append 0 (digits fuel (n / 10)) (48 + n % 10), ih) (omega arith))
]

append-injective : (xs ys zs : Text) → xs ++ ys ≡ xs ++ zs → ys ≡ zs
append-injective [] ys zs h = h
append-injective (x ∷ xs) ys zs h = append-injective xs ys zs (cc)

pub eq_text-eq : (xs ys : Text) → eq_text xs ys ≡ true → xs ≡ ys
eq_text-eq [] [] h = refl
eq_text-eq [] (y ∷ ys) h = cc
eq_text-eq (x ∷ xs) [] h = cc
eq_text-eq (x ∷ xs) (y ∷ ys) h =
    let (first, rest) = and-true (x == y) (eq_text xs ys) h in
    let e = (==_iff x y).0 first in let ih = eq_text-eq xs ys rest in cc

longer : (base : Text) (d : ℕ) (ds : Text) → base ≢ base ++ (d ∷ ds)
longer base d ds e =
    let n : length base ≡ length base + length (d ∷ ds) =
      ap length e ∙ length-append base (d ∷ ds) in
    omega arith

digits_injective : (i k : ℕ) → digits (suc i) i ≡ digits (suc k) k → i ≡ k
digits_injective i k e =
    sym (value-digits (suc i) i (omega arith))
    ∙ ap (value 0) e
    ∙ value-digits (suc k) k (omega arith)

tail_eq : {a b : ℕ} {xs ys : Text} → a ∷ xs ≡ b ∷ ys → xs ≡ ys
tail_eq e = cc

pub name_at_injective : (base : Text) (i k : ℕ) → name_at base i ≡ name_at base k → i ≡ k
unfolding name_at
name_at_injective base i k e = elim (Bool-cases (i == 1)) [
  | inl a ↦ elim (Bool-cases (k == 1)) [
    | inl b ↦ (==_iff i 1).0 a ∙ sym ((==_iff k 1).0 b)
    | inr b ↦ absurd (longer base dash (digits (suc k) k) (rw (a, b) at e))
  ]
  | inr a ↦ elim (Bool-cases (k == 1)) [
    | inl b ↦ absurd (longer base dash (digits (suc i) i) (sym (rw (a, b) at e)))
    | inr b ↦ digits_injective i k (tail_eq (append-injective base _ _ (rw (a, b) at e)))
  ]
]
