-- ===== src/Common/Time.antt =====
-- Instants and durations (Go's time.Time and time.Duration) as nanoseconds: an instant counts
-- from the zero time, January 1 of year 1, so the zero time is `pos 0`.
use Prim.Native.Nat.{ℕ}
use mathlib.Core.Bool.{Bool}
use mathlib.Core.Option.{Option, none, some}
use kapacity.Common.Int.{ℤ, pos, ◌+ℤ◌, ◌-ℤ◌, ◌*ℤ◌, quot, ltb_ℤ, eqb_ℤ}

abbrev pub Time : Type 0
Time = ℤ

abbrev pub zero_time : Time
zero_time = pos 0

abbrev pub is_zero : Time → Bool
is_zero t = eqb_ℤ t zero_time

-- `t.Before(u)`
abbrev pub before : Time → Time → Bool
before t u = ltb_ℤ t u

-- `IsZero` of a *metav1.Time, which is true of nil.
abbrev pub is_zero_ptr : Option Time → Bool
is_zero_ptr none = Bool.true
is_zero_ptr (some t) = is_zero t

abbrev pub second : ℕ
second = 1_000_000_000

-- `time.Unix(sec, 0)`
unfoldable pub unix : ℤ → Time
unix sec = (sec +ℤ pos 62_135_596_800) *ℤ pos second

-- `t.Unix()` of an instant after the zero time.
unfoldable pub unix_of : Time → ℤ
unix_of t = quot t second -ℤ pos 62_135_596_800
