-- ===== src/Portrait/Dynamic.antt =====
-- The dynamic provider, pkg/portrait/provider/dynamic.go: the value that portrait data has at an
-- instant, and the triggers that are set for the next one.
pub mod Series
pub mod Current
use kapacity.Common.{
  ℕ, Bool, true, false, not, ◌&&◌, ◌||◌, String, List, [], ◌∷◌, Option, none, some, if◌then◌else◌,
  Go, ok, err, panic, ◌>>=◌, ◌>>◌, wrap_err, errorf,
}
use kapacity.Common.Int.{ℤ, pos, ltb_ℤ}
use kapacity.Common.Time.{Time, zero_time, is_zero, before, unix, unix_of}
use kapacity.Api.Meta.{NamespacedName}
use kapacity.Api.HorizontalPortrait.{
  ReplicaCron, ReplicaTimeSeriesPoint, PortraitData, static_data, cron_data, time_series_data,
  unknown_data, HorizontalPortraitData,
}
use kapacity.Api.Ihpa.{HorizontalPortraitValue}
use kapacity.Portrait.Cron.{CronLibrary, ActiveCron, get_active_replica_cron}
use kapacity.Portrait.Triggers.{
  Triggers, start_cron_task_trigger, stop_cron_task_trigger, start_timer_trigger,
  stop_timer_trigger,
}

-- What the switch over the type of the data computes.
pub record Decision : Type 0 where
  pub replicas : ℤ
  pub expire_time : Time
  pub need_timer_trigger : Bool
  pub timer_trigger_time : Time

-- The earlier of two times, where the zero time is none.
abbrev pub earlier : (next expire : Time) → Time
earlier next expire = if is_zero expire || before next expire then next else expire

-- A point that takes effect, with the point behind it in the series.
abbrev pub Effect : Type 0
Effect = ReplicaTimeSeriesPoint × Option ReplicaTimeSeriesPoint

abbrev pub next_of : List ReplicaTimeSeriesPoint → Option ReplicaTimeSeriesPoint
next_of [] = none
next_of (p ∷ ps) = some p

-- The loop from the last point to the first: the one at the greatest index whose time has come.
unfoldable pub find_point : (now : ℤ) → List ReplicaTimeSeriesPoint → Option Effect
find_point now [] = none
find_point now (p ∷ ps) = elim (find_point now ps) [
  | some e ↦ some e
  | none ↦ if ltb_ℤ now p.timestamp then none else some (p, next_of ps)
]

abbrev expire_before : Option ReplicaTimeSeriesPoint → Time → Time
expire_before none expire = expire
expire_before (some next) expire = earlier (unix next.timestamp) expire

-- `series[0]` panics if there is no point.
abbrev pub series_effect : Option Effect → List ReplicaTimeSeriesPoint → Time → Go Decision
series_effect (some (p, next)) series expire = ok (record {
  replicas = p.replicas;
  expire_time = expire_before next expire;
  need_timer_trigger = true;
  timer_trigger_time = zero_time;
})
series_effect none [] expire = panic
series_effect none (p ∷ ps) expire = ok (record {
  replicas = pos 0;
  expire_time = expire;
  need_timer_trigger = true;
  timer_trigger_time = unix p.timestamp;
})

unfoldable pub series_decision : (now : ℤ) → List ReplicaTimeSeriesPoint → Time → Go Decision
series_decision now series expire = series_effect (find_point now series) series expire

abbrev plain : ℤ → Time → Decision
plain replicas expire = record {
  replicas = replicas;
  expire_time = expire;
  need_timer_trigger = true;
  timer_trigger_time = zero_time;
}

-- A cron that ends before the data expires has a trigger already.
unfoldable pub cron_decision : Option ActiveCron → Time → Decision
cron_decision none expire = plain (pos 0) expire
cron_decision (some a) expire =
    if is_zero expire || before a.expire_time expire
    then record {
      replicas = a.cron.replicas;
      expire_time = a.expire_time;
      need_timer_trigger = false;
      timer_trigger_time = zero_time;
    }
    else plain a.cron.replicas expire

-- The time that the timer is set to.
abbrev pub trigger_time : Decision → Time
trigger_time d =
    if not (is_zero d.expire_time)
      && (is_zero d.timer_trigger_time || before d.expire_time d.timer_trigger_time)
    then d.expire_time
    else d.timer_trigger_time

unfoldable pub set_timer : NamespacedName → Decision → Triggers → Triggers
set_timer key d s =
    if d.need_timer_trigger && not (is_zero (trigger_time d))
    then start_timer_trigger key (trigger_time d) s
    else s

unfoldable pub value_of : (provider : String) → Decision → Option HorizontalPortraitValue
value_of provider d =
    if ltb_ℤ (pos 0) d.replicas
    then some
        (record { provider = provider; replicas = d.replicas; expire_time = some d.expire_time })
    else none

abbrev expire_of : Option Time → Time
expire_of none = zero_time
expire_of (some t) = t

abbrev decided :
    NamespacedName
    → (provider : String) → Triggers × Go Decision
    → Triggers × Go (Option HorizontalPortraitValue)
decided key provider (s, ok d) = (set_timer key d s, ok (value_of provider d))
decided key provider (s, err e) = (s, err e)
decided key provider (s, panic) = (s, panic)

module _ (library : CronLibrary) (hash : List ReplicaCron → Go ℕ)
    (load_location : String → Go (Unit {0})) (add_func : (spec : String) → Go (Unit {0})) where
  abbrev cron_started :
      Time → List ReplicaCron → Time → Triggers × Go (Unit {0}) → Triggers × Go Decision
  cron_started now crons expire (s, started) = (
    s,
    do
      wrap_err "failed to run cron task for portrait data" [] started
      active ←
          wrap_err "failed to get active replica cron from portrait data" []
            (get_active_replica_cron library now crons)
      ok (cron_decision active expire),
  )

  -- The switch over the type of the data.
  unfoldable pub decide :
      NamespacedName → Time → PortraitData → Time → Triggers → Triggers × Go Decision
  decide key now (static_data replicas) expire s = (s, ok (plain replicas expire))
  decide key now (cron_data crons) expire s =
      cron_started now crons expire
        (start_cron_task_trigger hash load_location add_func key crons s)
  decide key now (time_series_data series) expire s =
      (s, series_decision (unix_of now) series expire)
  decide key now (unknown_data t) expire s =
      (s, err (errorf "unknown horizontal portrait data type %q" (t ∷ [])))

  abbrev is_expired : Time → Time → Bool
  is_expired now expire = not (is_zero expire) && not (before now expire)

  unfoldable pub build_portrait_value :
      (provider : String)
      → NamespacedName
      → Time
      → HorizontalPortraitData
      → Triggers
      → Triggers × Go (Option HorizontalPortraitValue)
  build_portrait_value provider key now data_of s =
      let expire = expire_of data_of.expire_time in
      if is_expired now expire
      then (stop_timer_trigger key (stop_cron_task_trigger key s), ok none)
      else decided key provider (decide key now data_of.body expire s)
