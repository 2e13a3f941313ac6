-- ===== src/Ihpa/Gray.antt =====
-- The gray change of the IHPA controller: generateIHPAReplicaData and the functions it uses. A nil
-- pointer that is read is a panic. Durations are in nanoseconds and do not overflow here.
pub mod Steps
pub mod Bounds
pub mod Percent
pub mod Progress
pub mod Completes
mod Tests
use kapacity.Common.{
  Bool, true, false, ◌&&◌, ◌||◌, Option, none, some, if◌then◌else◌, Go, ok, panic, ◌>>=◌,
}
use kapacity.Common.Int.{ℤ, pos, ◌+ℤ◌, ◌-ℤ◌, ◌*ℤ◌, ltb_ℤ, eqb_ℤ, quot, int32}
use kapacity.Common.Time.{Time, second}
use kapacity.Pod.Data.{PodState, cutoff, standby}
use kapacity.Util.{max_int32, min_int32, abs_int32}
use kapacity.Api.Ihpa.{
  Ihpa, HorizontalPortraitValue, GrayStrategy, GrayStatus, ScaleMode, auto, preview, unknown_mode,
}

pub record ReplicaData : Type 0 where
  pub online_replicas : ℤ
  pub cutoff_replicas : ℤ
  pub standby_replicas : ℤ

pub data ReplicaCap : Type 0 where
  none_cap min_cap max_cap : ReplicaCap

-- A pointer that is read.
abbrev pub deref {ℓ} : {A : Type ℓ} → Option A → Go A
deref none = panic
deref (some a) = ok a

abbrev pub is_some {ℓ} : {A : Type ℓ} → Option A → Bool
is_some none = false
is_some (some a) = true

pub gray_active_for : Ihpa → Option HorizontalPortraitValue → Option HorizontalPortraitValue → Bool
gray_active_for ihpa (some previous) (some current) =
    (is_some ihpa.spec.behavior.scale_up.gray_strategy && ltb_ℤ previous.replicas current.replicas)
    || (is_some ihpa.spec.behavior.scale_down.gray_strategy
        && ltb_ℤ current.replicas previous.replicas)
gray_active_for ihpa _ _ = false

abbrev is_preview : ScaleMode → Bool
is_preview preview = true
is_preview auto = false
is_preview (unknown_mode m) = false

unfoldable pub is_ihpa_gray_active : Ihpa → Bool
unfolding gray_active_for
is_ihpa_gray_active ihpa =
    if is_preview ihpa.spec.scale_mode
    then false
    else gray_active_for ihpa ihpa.status.previous_portrait_value ihpa.status.current_portrait_value

pub strategy_for :
    Ihpa → Option HorizontalPortraitValue → Option HorizontalPortraitValue → Option GrayStrategy
strategy_for ihpa (some previous) (some current) =
    if ltb_ℤ previous.replicas current.replicas
    then ihpa.spec.behavior.scale_up.gray_strategy
    else if ltb_ℤ current.replicas previous.replicas
    then ihpa.spec.behavior.scale_down.gray_strategy
    else none
strategy_for ihpa _ _ = none

unfoldable pub get_current_gray_strategy : Ihpa → Option GrayStrategy
unfolding strategy_for
get_current_gray_strategy ihpa =
    strategy_for ihpa ihpa.status.previous_portrait_value ihpa.status.current_portrait_value

-- The seconds to wait at a gray percentage.
pub wait_seconds : GrayStrategy → ℤ → ℤ
wait_seconds g percent =
    if eqb_ℤ percent (pos 0)
    then pos 0
    else if eqb_ℤ percent (pos 100)
    then g.observation_seconds
    else g.change_interval_seconds

pub remaining : ℤ → Time → Time → ℤ
remaining seconds last_update now =
    let left = seconds *ℤ pos second -ℤ (now -ℤ last_update) in
    if ltb_ℤ left (pos 0) then pos 0 else left

unfoldable pub cal_ihpa_gray_remain_time : Time → Ihpa → Go ℤ
unfolding remaining wait_seconds
cal_ihpa_gray_remain_time now ihpa = do
  gray ← deref ihpa.status.gray
  g ← deref (get_current_gray_strategy ihpa)
  ok (remaining (wait_seconds g gray.gray_percent) gray.last_update_time now)

-- The bounds of the spec, applied to the current value in place: the status is changed too.
cap_replicas : ℤ → ℤ → ℤ → ℤ × ReplicaCap
cap_replicas lo hi r =
    let raised = if ltb_ℤ r lo then lo else r in
    if ltb_ℤ hi raised then (hi, max_cap) else (raised, if ltb_ℤ r lo then min_cap else none_cap)

abbrev pub with_current : Ihpa → HorizontalPortraitValue → Ihpa
with_current ihpa v = record ihpa {
  status = record ihpa.status { current_portrait_value = some v };
}

-- What generateIHPAReplicaData returns, with the object whose status it changed.
pub record Generated : Type 0 where
  pub replicas : ReplicaData
  pub replica_cap : ReplicaCap
  pub remain_time : ℤ
  pub ihpa : Ihpa

abbrev all_online : ℤ → ReplicaData
all_online r = record { online_replicas = r; cutoff_replicas = pos 0; standby_replicas = pos 0 }

abbrev when : PodState → PodState → ℤ → ℤ
when cutoff cutoff n = n
when standby standby n = n
when _ _ n = pos 0

-- The replicas of the states at a gray percentage, from the previous value to the current one.
pub gray_replicas : GrayStrategy → (percent previous current : ℤ) → ReplicaData
unfolding max_int32 abs_int32
gray_replicas g percent previous current =
    let diff = abs_int32 (int32 (current -ℤ previous)) in
    let gray = max_int32 (pos 1) (quot (int32 (diff *ℤ percent)) 100) in
    if ltb_ℤ previous current then all_online (int32 (previous +ℤ gray)) else record {
      online_replicas = int32 (previous -ℤ gray);
      cutoff_replicas = when cutoff g.gray_state gray;
      standby_replicas = when standby g.gray_state gray;
    }

-- The change is in progress: the replicas at the percentage, which moves on once the wait is over.
gray_progress : Time → Ihpa → HorizontalPortraitValue → ReplicaCap → GrayStatus → ℤ → Go Generated
unfolding gray_replicas min_int32
gray_progress now ihpa current limit gray remain_time = do
  g ← deref (get_current_gray_strategy ihpa)
  previous ← deref ihpa.status.previous_portrait_value
  let due = eqb_ℤ remain_time (pos 0)
  let percent =
      (if due
        then min_int32 (pos 100) (int32 (gray.gray_percent +ℤ g.change_percent))
        else gray.gray_percent)
  ok (record {
    replicas = gray_replicas g percent previous.replicas current.replicas;
    replica_cap = limit;
    remain_time = remain_time;
    ihpa =
        if due
        then record ihpa {
          status = record ihpa.status {
            gray = some (record { gray_percent = percent; last_update_time = now });
          };
        }
        else ihpa;
  })

-- The part behind the test that the gray change is active.
generate_gray : Time → Ihpa → HorizontalPortraitValue → ReplicaCap → Go Generated
unfolding gray_progress
generate_gray now ihpa current limit = do
  remain_time ← cal_ihpa_gray_remain_time now ihpa
  gray ← deref ihpa.status.gray
  (if eqb_ℤ gray.gray_percent (pos 100) && eqb_ℤ remain_time (pos 0)
      then ok (record {
        replicas = all_online current.replicas;
        replica_cap = limit;
        remain_time = pos 0;
        ihpa = ihpa;
      })
      else gray_progress now ihpa current limit gray remain_time)

generate_capped : Time → Ihpa → HorizontalPortraitValue → ReplicaCap → Go Generated
unfolding generate_gray
generate_capped now ihpa current limit =
    if is_ihpa_gray_active ihpa
    then generate_gray now ihpa current limit
    else ok (record {
      replicas = all_online current.replicas;
      replica_cap = limit;
      remain_time = pos 0;
      ihpa = ihpa;
    })

unfoldable pub generate_ihpa_replica_data : Time → Ihpa → Go Generated
unfolding cap_replicas generate_capped
generate_ihpa_replica_data now ihpa = do
  value ← deref ihpa.status.current_portrait_value
  let (r, limit) = cap_replicas ihpa.spec.min_replicas ihpa.spec.max_replicas value.replicas
  let current = record value { replicas = r }
  generate_capped now (with_current ihpa current) current limit
