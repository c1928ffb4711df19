-- ===== src/Billing/Signature.antt =====
-- `_verify` of cronsentinel/routers/billing.py, and the webhook behind it. The HMAC under the webhook's secret is an
-- argument; texts are lists of characters.
pub mod Accepts
use jobwatch.Prelude.{
  ℕ, suc, ◌+◌, ◌-◌, ◌*◌, Bool, true, false, ◌&&◌, ◌||◌, not, Option, none, some, List, [], ◌∷◌,
  ◌++◌, ◌==◌, leb, ltb, if◌then◌else◌, any_of,
}
use jobwatch.Prelude.Int.{ℤ, pos, negsuc, negate}
use jobwatch.Schedule.{distance, seconds}
use jobwatch.Http.{Reply, ok, raised, ◌>>=◌, raise_if, found_or}
use jobwatch.Access.{Text, eq_text}
use jobwatch.Discovery.{digits}
use jobwatch.Billing.{StripeEvent, Accounting, handle_event}

-- The text up to a separator, and what is behind it.
unfoldable pub partition : ℕ → Text → Text × Text
partition sep [] = ([], [])
partition sep (c ∷ cs) = let (k, v) = partition sep cs in if c == sep then ([], cs) else (c ∷ k, v)

abbrev pub add_char : ℕ → List Text → List Text
add_char c [] = (c ∷ []) ∷ []
add_char c (t ∷ ts) = (c ∷ t) ∷ ts

-- str.split
unfoldable pub split : ℕ → Text → List Text
split sep [] = [] ∷ []
split sep (c ∷ cs) = let rest = split sep cs in if c == sep then [] ∷ rest else add_char c rest

-- str.strip, over the characters of a header.
abbrev pub is_space : ℕ → Bool
is_space c = (leb 9 c && leb c 13) || ((leb 28 c && leb c 32) || (c == 133 || c == 160))

unfoldable pub lstrip : Text → Text
lstrip [] = []
lstrip (c ∷ cs) = let rest = lstrip cs in if is_space c then rest else c ∷ cs

unfoldable pub rstrip : Text → Text
rstrip [] = []
rstrip (c ∷ cs) = elim (rstrip cs) [ [] ↦ if is_space c then [] else c ∷ [] | d ∷ ds ↦ c ∷ d ∷ ds ]

abbrev pub strip : Text → Text
strip t = rstrip (lstrip t)

abbrev pub is_digit : ℕ → Bool
is_digit c = leb 48 c && leb c 57

-- The digits of `int`, with single underscores between them.
unfoldable pub read_digits : Bool → ℕ → Text → Option ℕ
read_digits after_digit acc [] = if after_digit then some acc else none
read_digits after_digit acc (c ∷ cs) =
    let next = read_digits true (10 * acc + (c - 48)) cs in
    let skip = read_digits false acc cs in
    if is_digit c then next else if c == 95 && after_digit then skip else none

abbrev pub signed : Bool → Option ℕ → Option ℤ
signed minus none = none
signed minus (some n) = some (if minus then negate n else pos n)

abbrev pub read_signed : Text → Option ℤ
read_signed [] = none
read_signed (c ∷ cs) =
    if c == 45
    then signed true (read_digits false 0 cs)
    else if c == 43
    then signed false (read_digits false 0 cs)
    else signed false (read_digits false 0 (c ∷ cs))

-- int(v), which may raise.
unfoldable pub int_of : Text → Option ℤ
unfolding read_digits lstrip rstrip
int_of v = read_signed (strip v)

-- `ts` and `sigs`.
pub record Header : Type 0 where
  pub ts : Option ℤ
  pub sigs : List Text

-- A part with the key t, where the number may be wrong.
abbrev pub with_ts : Option ℤ → Header → Option Header
with_ts none h = none
with_ts (some ts) h = some (record h { ts = some ts })

abbrev pub read_part : Text × Text → Header → Option Header
read_part (k, v) h =
    if eq_text k (116 ∷ [])
    then with_ts (int_of v) h
    else some (if eq_text k (118 ∷ 49 ∷ []) then record h { sigs = h.sigs ++ (v ∷ []) } else h)

-- The loop over the parts.
unfoldable pub scan : List Text → Header → Option Header
unfolding partition lstrip rstrip int_of
scan [] h = some h
scan (kv ∷ rest) h = elim (read_part (partition 61 (strip kv)) h) [
  | none ↦ none
  | some h' ↦ scan rest h'
]

abbrev pub tolerance_s : ℕ
tolerance_s = 300

-- abs(time.time() - ts) > TOLERANCE_S, at an instant in microseconds.
unfoldable pub too_far : ℕ → ℤ → Bool
too_far now (pos n) = ltb (seconds tolerance_s) (distance now (seconds n))
too_far now (negsuc n) = ltb (seconds tolerance_s) (now + seconds (suc n))

-- str(ts)
abbrev pub show_int : ℤ → Text
show_int (pos n) = digits (suc n) n
show_int (negsuc n) = 45 ∷ digits (suc (suc n)) (suc n)

-- f"{ts}.".encode() + payload
abbrev pub message : ℤ → Text → Text
message ts payload = show_int ts ++ (46 ∷ payload)

abbrev pub is_ascii : Text → Bool
is_ascii t = not (any_of (λ c. leb 128 c) t)

-- `any`, where compare_digest raises on a text that is not ASCII.
unfoldable pub matches : Text → List Text → Bool
matches expected [] = false
matches expected (s ∷ rest) = is_ascii s && (eq_text expected s || matches expected rest)

module _ (hmac : Text → Text) where
  abbrev pub verify_header : ℕ → Text → Option Header → Bool
  verify_header now payload none = false
  verify_header now payload (some h) = elim h.ts [
    | none ↦ false
    | some ts ↦ not (too_far now ts) && matches (hmac (message ts payload)) h.sigs
  ]

  unfoldable pub verify : ℕ → Text → Text → Bool
  unfolding split scan too_far digits matches
  verify now payload sig_header =
      verify_header now payload (scan (split 44 sig_header) (record { ts = none; sigs = [] }))

  -- The handler, with `json.loads` and the fields that it needs.
  unfoldable pub webhook :
      Bool → (Text → Option StripeEvent) → ℕ → Text → Text → Accounting → Reply (Bool × Accounting)
  unfolding verify handle_event
  webhook has_secret parse now raw stripe_signature t =
      raise_if (not (has_secret && verify now raw stripe_signature)) 400 >>= λ _.
      found_or 400 (parse raw) >>= λ (ev : StripeEvent). handle_event ev t
