-- ===== src/Ihpa/Gray/Bounds.antt =====
-- The bounds of the spec in generateIHPAReplicaData, where no gray strategy is configured.
use kapacity.Common.{
  true, false, Option, none, some, Go, ok, panic, ◌>>=◌, ◌≡◌, refl, Bool-cases, inl, inr, arith,
}
use kapacity.Common.Int.{ℤ, pos, ltb_ℤ, ◌≤ℤ◌}
use kapacity.Common.Time.{Time}
use kapacity.Api.Ihpa.{Ihpa, HorizontalPortraitValue}
use kapacity.Ihpa.Gray.{
  ReplicaCap, none_cap, min_cap, max_cap, Generated, cap_replicas, with_current, all_online,
  generate_capped, is_ihpa_gray_active, gray_active_for, is_preview, generate_ihpa_replica_data,
  deref,
}

-- The capped number lies within the bounds, it is the number itself exactly if nothing was capped,
-- and otherwise the bound that the cap names.
abbrev pub IsCapped : (lo hi r : ℤ) → ℤ × ReplicaCap → Type 0
IsCapped lo hi r (x, none_cap) = (x ≡ r) × (lo ≤ℤ r) × (r ≤ℤ hi)
IsCapped lo hi r (x, min_cap) = (x ≡ lo) × (ltb_ℤ r lo ≡ true)
IsCapped lo hi r (x, max_cap) = (x ≡ hi) × (ltb_ℤ hi r ≡ true)

cap_replicas-IsCapped : (lo hi r : ℤ) → lo ≤ℤ hi → IsCapped lo hi r (cap_replicas lo hi r)
unfolding cap_replicas
cap_replicas-IsCapped lo hi r h = elim (Bool-cases (ltb_ℤ r lo)) [
  | inl e ↦ elim (Bool-cases (ltb_ℤ hi lo)) [
    | inl d ↦ rw (e, d) (refl, ground arith)
    | inr d ↦ rw (e, d) (refl, e)
  ]
  | inr e ↦ elim (Bool-cases (ltb_ℤ hi r)) [
    | inl d ↦ rw (e, d) (refl, d)
    | inr d ↦ rw (e, d) (refl, ground arith, ground arith)
  ]
]

-- What is generated for a capped number that is all online.
abbrev pub plain : Ihpa → HorizontalPortraitValue → ℤ × ReplicaCap → Generated
plain ihpa v (r, limit) = record {
  replicas = all_online r;
  replica_cap = limit;
  remain_time = pos 0;
  ihpa = with_current ihpa (record v { replicas = r });
}

not_active :
    (ihpa : Ihpa)
    → ihpa.spec.behavior.scale_up.gray_strategy ≡ none
    → ihpa.spec.behavior.scale_down.gray_strategy ≡ none
    → (p c : Option HorizontalPortraitValue) → gray_active_for ihpa p c ≡ false
unfolding gray_active_for
not_active ihpa u d none c = refl
not_active ihpa u d (some p) none = refl
not_active ihpa u d (some p) (some c) = rw (u, d) refl

inactive :
    (ihpa : Ihpa)
    → ihpa.spec.behavior.scale_up.gray_strategy ≡ none
    → ihpa.spec.behavior.scale_down.gray_strategy ≡ none
    → is_ihpa_gray_active ihpa ≡ false
unfolding is_ihpa_gray_active
inactive ihpa u d = elim (Bool-cases (is_preview ihpa.spec.scale_mode)) [
  | inl e ↦ rw e refl
  | inr e ↦
      rw
        (
          e,
          not_active ihpa u d ihpa.status.previous_portrait_value
              ihpa.status.current_portrait_value,
        )
        refl
]

capped_plain :
    (now : Time) (ihpa : Ihpa) (v : HorizontalPortraitValue)
    → ihpa.spec.behavior.scale_up.gray_strategy ≡ none
    → ihpa.spec.behavior.scale_down.gray_strategy ≡ none
    → (o : ℤ × ReplicaCap)
    → (let (r, limit) = o in
        generate_capped now
          (with_current ihpa (record v { replicas = r }))
          (record v { replicas = r })
          limit)
      ≡ ok (plain ihpa v o)
unfolding generate_capped
capped_plain now ihpa v u d (r, limit) =
    rw (inactive (with_current ihpa (record v { replicas = r })) u d) refl

from_value :
    {A B : Type 0} (o : Option A) (a : A) (f : A → Go B) (r : Go B)
    → o ≡ some a
    → f a ≡ r
    → (deref o >>= f) ≡ r
from_value none a f r h k = cc
from_value (some b) a f r h k = cc

-- An object with a current value, no gray strategy, and bounds in order: all the replicas generated
-- are online, there is no wait, and their number is that of the value if this lies within the bounds
-- of the spec, and else the bound that was passed, which the cap tells and the status then holds.
pub generate_ihpa_replica_data-IsCapped :
    (now : Time) (ihpa : Ihpa) (v : HorizontalPortraitValue)
    → ihpa.status.current_portrait_value ≡ some v
    → ihpa.spec.behavior.scale_up.gray_strategy ≡ none
    → ihpa.spec.behavior.scale_down.gray_strategy ≡ none
    → ihpa.spec.min_replicas ≤ℤ ihpa.spec.max_replicas
    → (o : ℤ × ReplicaCap) × (generate_ihpa_replica_data now ihpa ≡ ok (plain ihpa v o))
      × IsCapped ihpa.spec.min_replicas ihpa.spec.max_replicas v.replicas o
unfolding generate_ihpa_replica_data
generate_ihpa_replica_data-IsCapped now ihpa v e u d h = (
  cap_replicas ihpa.spec.min_replicas ihpa.spec.max_replicas v.replicas,
  from_value ihpa.status.current_portrait_value v _ _ e (
      capped_plain now ihpa v u d
        (cap_replicas ihpa.spec.min_replicas ihpa.spec.max_replicas v.replicas)),
  cap_replicas-IsCapped ihpa.spec.min_replicas ihpa.spec.max_replicas v.replicas h,
)

nothing_read : {A B : Type 0} (o : Option A) (f : A → Go B) → o ≡ none → (deref o >>= f) ≡ panic
nothing_read none f e = refl
nothing_read (some a) f e = cc

-- Without a current value it panics.
pub generate_ihpa_replica_data-panic :
    (now : Time) (ihpa : Ihpa)
    → ihpa.status.current_portrait_value ≡ none
    → generate_ihpa_replica_data now ihpa ≡ panic
unfolding generate_ihpa_replica_data
generate_ihpa_replica_data-panic now ihpa e = nothing_read ihpa.status.current_portrait_value _ e
