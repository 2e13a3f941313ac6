-- ===== src/Ihpa/Gray/Progress.antt =====
-- A gray change from its start to its end: generateIHPAReplicaData in round after round.
use kapacity.Common.{
  ℕ, ◌+◌, ◌<◌, ◌^◌, min, Bool, true, false, ◌&&◌, ◌||◌, Option, none, some, Go, ok, ◌>>=◌,
  if◌then◌else◌, ◌≡◌, refl, ◌∙◌, ap,
}
use kapacity.Common.Int.{ℤ, pos, ◌+ℤ◌, ltb_ℤ, int32}
use kapacity.Common.Time.{Time}
use kapacity.Util.{min_int32}
use kapacity.Api.Ihpa.{Ihpa, HorizontalPortraitValue, GrayStrategy}
use kapacity.Ihpa.Gray.Percent.{percent_lem, eqb_100}
use kapacity.Ihpa.Gray.{
  Generated, none_cap, all_online, cap_replicas, with_current, generate_capped, generate_gray,
  gray_progress, is_ihpa_gray_active, gray_active_for, is_some, is_preview,
  generate_ihpa_replica_data, deref, strategy_for, get_current_gray_strategy,
  cal_ihpa_gray_remain_time, remaining, wait_seconds,
}

-- A gray change from p to c by the strategy g, at a percentage that was reached at some time.
pub record InChange (g : GrayStrategy) (p c : HorizontalPortraitValue) (percent : ℕ) (last : Time)
    (ihpa : Ihpa) : Type 0 where
  pub active : is_preview ihpa.spec.scale_mode ≡ false
  pub strategy : strategy_for ihpa (some p) (some c) ≡ some g
  pub previous : ihpa.status.previous_portrait_value ≡ some p
  pub current : ihpa.status.current_portrait_value ≡ some c
  pub gray :
      ihpa.status.gray ≡ some (record { gray_percent = pos percent; last_update_time = last })
  pub above : ltb_ℤ c.replicas ihpa.spec.min_replicas ≡ false
  pub below : ltb_ℤ ihpa.spec.max_replicas c.replicas ≡ false

strategy_lem :
    (up_way down_way : Bool) (up down : Option GrayStrategy) (g : GrayStrategy)
    → (if up_way then up else if down_way then down else none) ≡ some g
    → (is_some up && up_way || is_some down && down_way) ≡ true
strategy_lem true d none down g e = cc
strategy_lem true d (some x) down g e = refl
strategy_lem false true up none g e = cc
strategy_lem false true none (some y) g e = refl
strategy_lem false true (some x) (some y) g e = refl
strategy_lem false false up down g e = cc

strategy_active :
    (ihpa : Ihpa) (g : GrayStrategy) (p c : HorizontalPortraitValue)
    → strategy_for ihpa (some p) (some c) ≡ some g
    → gray_active_for ihpa (some p) (some c) ≡ true
unfolding strategy_for gray_active_for
strategy_active ihpa g p c e =
    strategy_lem (ltb_ℤ p.replicas c.replicas) (ltb_ℤ c.replicas p.replicas)
      ihpa.spec.behavior.scale_up.gray_strategy ihpa.spec.behavior.scale_down.gray_strategy g e

is_active :
    (ihpa : Ihpa) (g : GrayStrategy) (p c : HorizontalPortraitValue)
    → is_preview ihpa.spec.scale_mode ≡ false
    → ihpa.status.previous_portrait_value ≡ some p
    → ihpa.status.current_portrait_value ≡ some c
    → strategy_for ihpa (some p) (some c) ≡ some g
    → is_ihpa_gray_active ihpa ≡ true
unfolding is_ihpa_gray_active
is_active ihpa g p c a d e s = rw (a, d, e) (strategy_active ihpa g p c s)

within :
    (lo hi r : ℤ) → ltb_ℤ r lo ≡ false → ltb_ℤ hi r ≡ false → cap_replicas lo hi r ≡ (r, none_cap)
unfolding cap_replicas
within lo hi r a b = rw (a, b) refl

-- A step of a chain of results, and what follows.
pub bind_ok :
    {A B : Type 0} (r : Go A) (a : A) (f : A → Go B) (x : Go B) → r ≡ ok a → f a ≡ x → (r >>= f) ≡ x
bind_ok r a f x e d = ap (λ q. q >>= f) e ∙ d

pub with_current-InChange :
    {g : GrayStrategy} {p c : HorizontalPortraitValue} {percent : ℕ} {last : Time} {ihpa : Ihpa}
    → InChange g p c percent last ihpa
    → InChange g p c percent last (with_current ihpa c)
unfolding strategy_for
with_current-InChange h = record {
  active = h.active;
  strategy = h.strategy;
  previous = h.previous;
  current = refl;
  gray = h.gray;
  above = h.above;
  below = h.below;
}

module _ (g : GrayStrategy) (p c : HorizontalPortraitValue) (percent : ℕ) (last : Time)
    (ihpa : Ihpa) (h : InChange g p c percent last ihpa) where
  strategy_at : get_current_gray_strategy ihpa ≡ some g
  unfolding get_current_gray_strategy
  strategy_at =
      ap (λ o. strategy_for ihpa o ihpa.status.current_portrait_value) h.previous
      ∙ ap (λ o. strategy_for ihpa (some p) o) h.current
      ∙ h.strategy

  remain_lem :
      (now : Time)
      → cal_ihpa_gray_remain_time now ihpa ≡ ok (remaining (wait_seconds g (pos percent)) last now)
  unfolding cal_ihpa_gray_remain_time
  remain_lem now =
      bind_ok (deref ihpa.status.gray)
        (record { gray_percent = pos percent; last_update_time = last }) _ _ (ap deref h.gray)
        (bind_ok (deref (get_current_gray_strategy ihpa)) g _ _ (ap deref strategy_at) refl)

  generate_lem :
      (now : Time)
      → generate_ihpa_replica_data now ihpa ≡ generate_gray now (with_current ihpa c) c none_cap
  unfolding generate_ihpa_replica_data generate_capped
  generate_lem now = bind_ok (deref ihpa.status.current_portrait_value) c _ _ (ap deref h.current) (
      ap
        (λ o.
          let (r, limit) = o in
          generate_capped now (with_current ihpa (record c { replicas = r }))
            (record c { replicas = r }) limit)
        (within ihpa.spec.min_replicas ihpa.spec.max_replicas c.replicas h.above h.below)
      ∙ ap
          (λ (b : Bool).
            if b
            then generate_gray now (with_current ihpa c) c none_cap
            else ok (record {
              replicas = all_online c.replicas;
              replica_cap = none_cap;
              remain_time = pos 0;
              ihpa = with_current ihpa c;
            }))
          (is_active (with_current ihpa c) g p c h.active h.previous refl
            (with_current-InChange h).strategy))

-- The wait is over.
abbrev pub IsDue : GrayStrategy → (percent : ℕ) → (last now : Time) → Type 0
IsDue g percent last now = remaining (wait_seconds g (pos percent)) last now ≡ pos 0

module _ (g : GrayStrategy) (p c : HorizontalPortraitValue) (last : Time) (ihpa : Ihpa)
    (now : Time) where
  -- At the whole percentage, after the wait: all replicas of the new value are online.
  pub last_lem :
      InChange g p c 100 last ihpa
      → IsDue g 100 last now
      → generate_ihpa_replica_data now ihpa
        ≡ ok (record {
          replicas = all_online c.replicas;
          replica_cap = none_cap;
          remain_time = pos 0;
          ihpa = with_current ihpa c;
        })
  unfolding generate_gray
  last_lem h due =
      generate_lem g p c 100 last ihpa h now
      ∙ bind_ok (cal_ihpa_gray_remain_time now (with_current ihpa c)) (pos 0) _ _
          (remain_lem g p c 100 last (with_current ihpa c) (with_current-InChange h) now
            ∙ ap ok due)
          (bind_ok (deref ihpa.status.gray)
            (record { gray_percent = pos 100; last_update_time = last }) _ _ (ap deref h.gray) refl)

  progress_lem :
      (percent ch : ℕ)
      → InChange g p c percent last ihpa
      → percent < 100
      → ch < 2 ^ 30
      → g.change_percent ≡ pos ch
      → (out : Generated) × (gray_progress now ihpa c none_cap
            (record { gray_percent = pos percent; last_update_time = last })
            (pos 0)
          ≡ ok out)
        × InChange g p c (min 100 (percent + ch)) now out.ihpa
  unfolding gray_progress strategy_for
  progress_lem percent ch h small fits e = (
    _,
    bind_ok (deref (get_current_gray_strategy ihpa)) g _ _
        (ap deref (strategy_at g p c percent last ihpa h))
        (bind_ok (deref ihpa.status.previous_portrait_value) p _ _ (ap deref h.previous) refl),
    record {
      active = h.active;
      strategy = h.strategy;
      previous = h.previous;
      current = h.current;
      gray =
          ap (λ k. some (record { gray_percent = k; last_update_time = now }))
            (ap (λ k. min_int32 (pos 100) (int32 (pos percent +ℤ k))) e
              ∙ percent_lem percent ch small fits);
      above = h.above;
      below = h.below;
    },
  )

module _ (g : GrayStrategy) (p c : HorizontalPortraitValue) (last : Time) (ihpa : Ihpa)
    (now : Time) where
  -- Before that, after the wait: the percentage moves on.
  pub step_lem :
      (percent ch : ℕ)
      → InChange g p c percent last ihpa
      → percent < 100
      → ch < 2 ^ 30
      → g.change_percent ≡ pos ch
      → IsDue g percent last now
      → (out : Generated) × (generate_ihpa_replica_data now ihpa ≡ ok out)
        × InChange g p c (min 100 (percent + ch)) now out.ihpa
  unfolding generate_gray
  step_lem percent ch h small fits e due =
      let (out, d, i) =
        progress_lem g p c last (with_current ihpa c) now percent ch (with_current-InChange h) small
          fits e in
      (
        out,
        generate_lem g p c percent last ihpa h now
            ∙ bind_ok (cal_ihpa_gray_remain_time now (with_current ihpa c)) (pos 0) _ _
                (remain_lem g p c percent last (with_current ihpa c) (with_current-InChange h) now
                  ∙ ap ok due)
                (bind_ok (deref ihpa.status.gray)
                  (record { gray_percent = pos percent; last_update_time = last }) _ _
                  (ap deref h.gray)
                  (ap
                      (λ (b : Bool).
                        if b && true
                        then ok (record {
                          replicas = all_online c.replicas;
                          replica_cap = none_cap;
                          remain_time = pos 0;
                          ihpa = with_current ihpa c;
                        })
                        else gray_progress now (with_current ihpa c) c none_cap
                            (record { gray_percent = pos percent; last_update_time = last })
                            (pos 0))
                      (eqb_100 percent small)
                    ∙ d)),
        i,
      )
