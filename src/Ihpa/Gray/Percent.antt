-- ===== src/Ihpa/Gray/Percent.antt =====
-- The arithmetic of the percentage of a gray change.
use kapacity.Common.{ℕ, ◌+◌, ◌<◌, ◌^◌, min, false, ◌≡◌, ◌∙◌, ap, arith}
use kapacity.Common.Int.{pos, ◌+ℤ◌, eqb_ℤ, int32, int32_id}
use kapacity.Util.{min_int32}

add_lem : (a b : ℕ) → pos a +ℤ pos b ≡ pos (a + b)
add_lem a b = ground arith

sum_lem :
    (percent ch : ℕ)
    → percent < 100
    → ch < 2 ^ 30
    → int32 (pos percent +ℤ pos ch) ≡ pos (percent + ch)
sum_lem percent ch a b =
    ap int32 (add_lem percent ch) ∙ int32_id (pos (percent + ch)) (ground arith)

min_lem : (n : ℕ) → min_int32 (pos 100) (pos n) ≡ pos (min 100 n)
unfolding min_int32
min_lem n = ground arith

pub percent_lem :
    (percent ch : ℕ)
    → percent < 100
    → ch < 2 ^ 30
    → min_int32 (pos 100) (int32 (pos percent +ℤ pos ch)) ≡ pos (min 100 (percent + ch))
percent_lem percent ch a b =
    ap (λ k. min_int32 (pos 100) k) (sum_lem percent ch a b) ∙ min_lem (percent + ch)

pub eqb_100 : (percent : ℕ) → percent < 100 → eqb_ℤ (pos percent) (pos 100) ≡ false
eqb_100 percent a = ground arith
