-- ===== src/Base/Time.antt =====
-- `time.Time` as the packages use it: an instant in nanoseconds since the zero time, and a location.
-- Instants before the zero time (the year 1) are not represented.
use Prim.Native.Nat.{ℕ, ◌-◌, ◌%◌, ◌≤◌}
use mathlib.Core.Path.{◌≡◌, refl}
use mathlib.Core.Bool.{Bool}
use native.Mathlib.Omega.{arith}
use auto_deploy.Base.Tests.{ltb, ◌==◌}

pub data Location : Type 0 where
  utc : Location
  fixed_zone : ℕ → Location

pub record Time : Type 0 where
  pub nanos : ℕ
  pub location : Location

-- `time.Microsecond` in nanoseconds.
abbrev pub microsecond : ℕ
microsecond = 1000

abbrev pub is_zero : Time → Bool
is_zero t = t.nanos == 0

abbrev pub before : Time → Time → Bool
before a b = ltb a.nanos b.nanos

-- `Equal` compares instants, in whatever locations.
abbrev pub equal : Time → Time → Bool
equal a b = a.nanos == b.nanos

abbrev pub truncate : Time → ℕ → Time
truncate t d = record t { nanos = t.nanos - t.nanos % d }

abbrev pub to_utc : Time → Time
to_utc t = record t { location = utc }

-- In UTC and a whole number of microseconds.
abbrev pub IsCanonical : Time → Type 0
IsCanonical t = (t.location ≡ utc) × (t.nanos % microsecond ≡ 0)

-- `value.UTC().Truncate(time.Microsecond)`.
unfoldable pub canonical_time : Time → Time
canonical_time t = truncate (to_utc t) microsecond

pub canonical_time-IsCanonical : (t : Time) → IsCanonical (canonical_time t)
unfolding canonical_time
canonical_time-IsCanonical t = (refl, omega arith)

pub canonical_time_fixed : (t : Time) → IsCanonical t → canonical_time t ≡ t
unfolding canonical_time
canonical_time_fixed t h = ground arith

pub canonical_time-le : (t : Time) → (canonical_time t).nanos ≤ t.nanos
unfolding canonical_time
canonical_time-le t = omega arith
