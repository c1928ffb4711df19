-- ===== src/Prelude/Int.antt =====
-- Signed numbers of milliseconds: what `int((a - b).total_seconds() * 1000)` computes from instants in
-- microseconds, rounding towards zero.
use Prim.Native.Nat.{ℕ, suc, ◌+◌, ◌-◌, ◌*◌, ◌/◌}
use mathlib.Core.Option.{Option, none, some}
use jobwatch.Prelude.Tests.{leb, ◌==◌, if◌then◌else◌}

-- `negsuc n` is -(n + 1).
pub data ℤ : Type 0 where
  pos : ℕ → ℤ
  negsuc : ℕ → ℤ

-- -n
abbrev pub negate : ℕ → ℤ
negate n = if n == 0 then pos 0 else negsuc (n - 1)

unfoldable pub millis_between : ℕ → ℕ → ℤ
millis_between a b = if leb b a then pos ((a - b) / 1000) else negate ((b - a) / 1000)

-- The instant that lies `d` milliseconds before `t`.
unfoldable pub millis_before : ℤ → ℕ → ℕ
millis_before (pos d) t = t - d * 1000
millis_before (negsuc d) t = t + suc d * 1000

-- `d or e`: 0 counts as none.
abbrev pub nonzero_or : Option ℤ → Option ℤ → Option ℤ
nonzero_or none e = e
nonzero_or (some (pos n)) e = if n == 0 then e else some (pos n)
nonzero_or (some (negsuc n)) e = some (negsuc n)
