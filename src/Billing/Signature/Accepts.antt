-- ===== src/Billing/Signature/Accepts.antt =====
-- Which headers `_verify` of routers/billing.py accepts, of those that Stripe builds.
use jobwatch.Prelude.{
  ℕ, suc, ◌≡◌, Bool, true, ◌&&◌, not, Option, none, some, List, [], ◌∷◌, ◌++◌, ◌==◌, ltb, All,
}
use jobwatch.Access.{Text}
use jobwatch.Discovery.{digits}
use jobwatch.Billing.Signature.{is_space, Header, scan}

-- A character that is neither a comma nor white space.
abbrev pub plain : ℕ → Bool
plain c = not (is_space c) && (not (c == 44) && ltb c 128)

abbrev pub IsPlain : Text → Type 0
IsPlain t = All (λ c. plain c ≡ true) t

-- t=<ts>,v1=<hex>[,v1=<hex>...]
abbrev pub signatures : List Text → Text
signatures [] = []
signatures (s ∷ ss) = 44 ∷ 118 ∷ 49 ∷ 61 ∷ (s ++ signatures ss)

abbrev pub header_of : ℕ → List Text → Text
header_of ts sigs = 116 ∷ 61 ∷ (digits (suc ts) ts ++ signatures sigs)

-- The parts of a header, one after the other.
abbrev v1 : Text → Text
v1 s = 118 ∷ 49 ∷ 61 ∷ s

scan_rest : List Text → Option Header → Option Header
scan_rest rest none = none
scan_rest rest (some h) = scan rest h
