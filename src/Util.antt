-- ===== src/Util.antt =====
-- pkg/util/math.go: the helpers on int32.
pub mod Finalizer
pub mod Selector
pub mod PodLister
pub mod Backoff
mod Tests
use kapacity.Common.{if◌then◌else◌}
use kapacity.Common.Int.{ℤ, pos, ◌-ℤ◌, leb_ℤ, ltb_ℤ, int32}

unfoldable pub max_int32 : ℤ → ℤ → ℤ
max_int32 a b = if leb_ℤ b a then a else b

unfoldable pub min_int32 : ℤ → ℤ → ℤ
min_int32 a b = if leb_ℤ a b then a else b

-- The negation of the least int32 is itself.
unfoldable pub abs_int32 : ℤ → ℤ
abs_int32 x = if ltb_ℤ x (pos 0) then int32 (pos 0 -ℤ x) else x
