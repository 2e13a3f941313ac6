-- ===== src/Prometheus/Range/Grid.antt =====
-- The instants at which Prometheus evaluates a range, and the arithmetic of instants for
-- promQueryRangeSharding.
use kapacity.Common.{
  true, false, ℕ, zero, suc, ◌+◌, ◌*◌, ◌/◌, ◌≤◌, ◌<◌, List, [], ◌∷◌, ◌++◌, if◌then◌else◌, ◌≡◌, refl,
  sym, ap, ◌∙◌, ltb, arith,
}
use kapacity.Common.Int.{ℤ, pos, negsuc, pos_part, ◌+ℤ◌, ◌-ℤ◌, ltb_ℤ}
use kapacity.Common.Time.{Time}
use kapacity.Prometheus.Range.{Range, max_points_per_prom_time_series}

-- So many instants, a step apart.
unfoldable pub grid : Time → (step : ℕ) → (count : ℕ) → List Time
grid t step zero = []
grid t step (suc n) = t ∷ grid (t +ℤ pos step) step n

-- The instants at which Prometheus evaluates a range: the start and what follows at each step, up to
-- the end.
unfoldable pub evaluations : Range → List Time
unfolding grid
evaluations r =
    if ltb_ℤ r.end r.start
    then []
    else grid r.start (pos_part r.step) (suc (pos_part (r.end -ℤ r.start) / pos_part r.step))

unfoldable pub all_evaluations : List Range → List Time
unfolding evaluations
all_evaluations [] = []
all_evaluations (r ∷ rs) = evaluations r ++ all_evaluations rs

-- What Prometheus accepts: no more than so many steps from the start to the end.
abbrev pub IsInLimit : Range → Type 0
IsInLimit r = pos_part (r.end -ℤ r.start) / pos_part r.step ≤ max_points_per_prom_time_series

-- The step is positive, and the end does not stand before the start.
abbrev pub IsForward : Range → Type 0
IsForward r = (ltb_ℤ (pos 0) r.step ≡ true) × (ltb_ℤ r.end r.start ≡ false)

pub add_pos : (t : ℤ) (a b : ℕ) → (t +ℤ pos a) +ℤ pos b ≡ t +ℤ pos (a + b)
add_pos (pos n) a b = ground arith
add_pos (negsuc n) a b = ground arith

pub before_pos : (t : ℤ) (a b : ℕ) → ltb_ℤ (t +ℤ pos a) (t +ℤ pos b) ≡ ltb a b
before_pos (pos n) a b = ground arith
before_pos (negsuc n) a b = ground arith

pub not_before : (t : ℤ) (a : ℕ) → ltb_ℤ (t +ℤ pos a) t ≡ false
not_before (pos n) a = ground arith
not_before (negsuc n) a = ground arith

pub distance : (t : ℤ) (a : ℕ) → (t +ℤ pos a) -ℤ t ≡ pos a
distance (pos n) a = ground arith
distance (negsuc n) a = ground arith

pub add_zero : (t : ℤ) → t +ℤ pos 0 ≡ t
add_zero (pos n) = ground arith
add_zero (negsuc n) = ground arith

pub evaluations-to :
    (t : Time) (step d : ℕ)
    → evaluations (record { start = t; end = t +ℤ pos d; step = pos step })
      ≡ grid t step (suc (d / step))
unfolding evaluations
evaluations-to t step d = rw (not_before t d, distance t d) refl

suc_plus : (n m : ℕ) → suc n + m ≡ suc (n + m)
suc_plus n m = omega arith

pub grid-append :
    (t : Time) (step n m : ℕ)
    → grid t step (n + m) ≡ grid t step n ++ grid (t +ℤ pos (n * step)) step m
unfolding grid
grid-append t step zero m =
    ap (λ k. grid t step k) (omega arith)
    ∙ ap (λ u. grid u step m) (sym (add_zero t) ∙ ap (λ k. t +ℤ pos k) (omega arith))
grid-append t step (suc n) m =
    ap (λ k. grid t step k) (suc_plus n m)
    ∙ ap (λ ts. t ∷ ts) (grid-append (t +ℤ pos step) step n m)
    ∙ ap (λ u. t ∷ (grid (t +ℤ pos step) step n ++ grid u step m))
        (add_pos t step (n * step) ∙ ap (λ k. t +ℤ pos k) (omega arith))

pub ltb_lt : (a b : ℕ) → a < b → ltb a b ≡ true
ltb_lt a b h = ground arith

pub ltb_ge : (a b : ℕ) → b ≤ a → ltb a b ≡ false
ltb_ge a b h = ground arith

pub append_nil : (ts : List Time) → ts ++ [] ≡ ts
append_nil [] = refl
append_nil (t ∷ ts) = ap (λ us. t ∷ us) (append_nil ts)
