-- ===== src/Ihpa/Gray/Steps.antt =====
-- The replicas at one percentage of a gray change (generateIHPAReplicaData).
use kapacity.Common.{
  leb, ltb, ◌≢◌, ℕ, ◌+◌, ◌-◌, ◌*◌, ◌/◌, ◌≤◌, ◌<◌, max, ◌≡◌, refl, ◌∙◌, ap, arith, ◌^◌, inl, inr,
  Bool-cases, if◌then◌else◌,
}
use kapacity.Common.Int.{pos, negsuc, ◌+ℤ◌, ◌-ℤ◌, ◌*ℤ◌, ltb_ℤ, quot, int32, int32_id}
use kapacity.Pod.Data.{cutoff, standby}
use kapacity.Util.{max_int32, abs_int32}
use kapacity.Api.Ihpa.{GrayStrategy}
use kapacity.Ihpa.Gray.{ReplicaData, all_online, when, gray_replicas}

abbrev pub limit : ℕ
limit = 2 ^ 31

-- The distance between the two values, in whichever direction.
abbrev pub gap : ℕ → ℕ → ℕ
gap p c = (c - p) + (p - c)

-- How many replicas have changed at a percentage.
abbrev pub step_at : ℕ → ℕ → ℕ
step_at diff percent = max 1 (diff * percent / 100)

up_lem : (p c : ℕ) → p ≤ c → pos c -ℤ pos p ≡ pos (c - p)
up_lem p c h = ground arith

down_lem : (p c : ℕ) → c < p → pos c -ℤ pos p ≡ negsuc (p - c - 1)
down_lem p c h = ground arith

neg_lem : (n : ℕ) → pos 0 -ℤ negsuc n ≡ pos (n + 1)
neg_lem n = ground arith

abs_neg : (n : ℕ) → n < limit - 1 → abs_int32 (negsuc n) ≡ pos (n + 1)
unfolding abs_int32
abs_neg n h = rw (neg_lem n, int32_id (pos (n + 1)) (ground arith)) (ground arith)

diff_lem : (p c : ℕ) → p < limit → c < limit → abs_int32 (int32 (pos c -ℤ pos p)) ≡ pos (gap p c)
unfolding abs_int32
diff_lem p c hp hc = elim (Bool-cases (leb p c)) [
  | inl e ↦ rw (up_lem p c (ground arith), int32_id (pos (c - p)) (ground arith)) (ground arith)
  | inr e ↦
      rw (down_lem p c (ground arith), int32_id (negsuc (p - c - 1)) (ground arith))
        (abs_neg (p - c - 1) (ground arith) ∙ ap pos (ground arith))
]

times_lem : (a b : ℕ) → pos a *ℤ pos b ≡ pos (a * b)
times_lem a b = ground arith

quot_lem : (a : ℕ) → quot (pos a) 100 ≡ pos (a / 100)
quot_lem a = ground arith

step_lem :
    (diff percent : ℕ)
    → diff * percent < limit
    → max_int32 (pos 1) (quot (int32 (pos diff *ℤ pos percent)) 100) ≡ pos (step_at diff percent)
unfolding max_int32
step_lem diff percent h =
    rw (times_lem diff percent, int32_id (pos (diff * percent)) (ground arith), quot_lem)
      (ground arith)

-- The step is at least one, and no more than the whole way at a percentage up to 100.
pub step_at_bounds :
    (diff percent : ℕ)
    → 1 ≤ diff
    → percent ≤ 100
    → (1 ≤ step_at diff percent) × (step_at diff percent ≤ diff)
step_at_bounds diff percent h k = grind arith

plus_lem : (a b : ℕ) → pos a +ℤ pos b ≡ pos (a + b)
plus_lem a b = ground arith

up_at : (p n : ℕ) → p + n < limit → int32 (pos p +ℤ pos n) ≡ pos (p + n)
up_at p n h = rw (plus_lem p n) (int32_id (pos (p + n)) (ground arith))

down_at : (p n : ℕ) → n ≤ p → p < limit → int32 (pos p -ℤ pos n) ≡ pos (p - n)
down_at p n h k = rw (up_lem n p h, int32_id (pos (p - n)) (ground arith)) refl

-- The replicas once `n` of them have changed.
abbrev pub changed : GrayStrategy → (p c n : ℕ) → ReplicaData
changed g p c n = if ltb_ℤ (pos p) (pos c) then all_online (pos (p + n)) else record {
  online_replicas = pos (p - n);
  cutoff_replicas = when cutoff g.gray_state (pos n);
  standby_replicas = when standby g.gray_state (pos n);
}

ltb_lem : (p c : ℕ) → ltb_ℤ (pos p) (pos c) ≡ ltb p c
ltb_lem p c = ground arith

change_lem :
    (g : GrayStrategy) (p c n : ℕ)
    → p < limit
    → c < limit
    → n ≤ gap p c
    → (if ltb_ℤ (pos p) (pos c) then all_online (int32 (pos p +ℤ pos n)) else record {
      online_replicas = int32 (pos p -ℤ pos n);
      cutoff_replicas = when cutoff g.gray_state (pos n);
      standby_replicas = when standby g.gray_state (pos n);
    })
      ≡ changed g p c n
change_lem g p c n hp hc hn = elim (Bool-cases (ltb p c)) [
  | inl e ↦ rw (ltb_lem p c, e, up_at p n (ground arith)) refl
  | inr e ↦ rw (ltb_lem p c, e, down_at p n (ground arith) hp) refl
]

-- At a percentage up to 100, and while the distance times the percentage fits an int32, a gray
-- change has moved by n replicas, where n is the percentage of the distance rounded down, at least
-- 1, and never more than the distance. A scale up has n more replicas online than the previous
-- value. A scale down has n fewer, and the n pods are in the gray state of the strategy.
pub gray_replicas_lem :
    (g : GrayStrategy) (percent p c : ℕ)
    → p ≢ c
    → p < limit
    → c < limit
    → percent ≤ 100
    → gap p c * percent < limit
    → (gray_replicas g (pos percent) (pos p) (pos c) ≡ changed g p c (step_at (gap p c) percent))
      × (1 ≤ step_at (gap p c) percent)
      × (step_at (gap p c) percent ≤ gap p c)
unfolding gray_replicas
gray_replicas_lem g percent p c hne hp hc h100 h =
    let b = step_at_bounds (gap p c) percent (ground arith) h100 in
    (
      rw (diff_lem p c hp hc, step_lem (gap p c) percent h)
          (change_lem g p c (step_at (gap p c) percent) hp hc b.1),
      b.0,
      b.1,
    )
