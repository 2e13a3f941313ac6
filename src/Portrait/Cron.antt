-- ===== src/Portrait/Cron.antt =====
-- Replica crons: IsCronActive of pkg/util/time.go, getActiveReplicaCron of
-- pkg/portrait/provider/common.go, and the static and the cron provider. Parsing a cron expression
-- and loading a location are parameters; a schedule tells the next time of it after an instant.
pub mod Overlap
use kapacity.Common.{
  Bool, true, false, String, List, [], ◌∷◌, Option, none, some, if◌then◌else◌, Go, ok, err, panic,
  ◌>>=◌, wrap_err, errorf,
}
use kapacity.Common.Int.{ℤ}
use kapacity.Common.Time.{Time, before, zero_time}
use kapacity.Api.HorizontalPortrait.{ReplicaCron}
use kapacity.Api.Ihpa.{HorizontalPortraitValue}

-- What the crons call.
pub record CronLibrary : Type 1 where
  pub Zone : Type 0
  pub load_location : String → Go Zone
  pub parse_standard : String → Go (Zone → Time → Time)

-- The cron in force, and when it ends.
pub record ActiveCron : Type 0 where
  pub cron : ReplicaCron
  pub expire_time : Time

abbrev pub static_value : (replicas : ℤ) → HorizontalPortraitValue
static_value replicas = record { provider = "Static"; replicas = replicas; expire_time = none }

module _ (library : CronLibrary) where
  unfoldable pub is_cron_active :
      library.Zone → Time → (start_cron end_cron : String) → Go (Bool × Time)
  is_cron_active zone t start_cron end_cron = do
    start ←
        wrap_err "failed to parse start cron %q" (start_cron ∷ [])
          (library.parse_standard start_cron)
    end ← wrap_err "failed to parse end cron %q" (end_cron ∷ []) (library.parse_standard end_cron)
    ok (before (end zone t) (start zone t), end zone t)

  -- What a cron that is active does to the one found before it.
  abbrev pub take_active : Option ActiveCron → ReplicaCron → Bool × Time → Go (Option ActiveCron)
  take_active found rc (false, t) = ok found
  take_active none rc (true, t) = ok (some (record { cron = rc; expire_time = t }))
  take_active (some a) rc (true, t) =
      err (errorf "found overlapping cron %q and %q" (a.cron.name ∷ rc.name ∷ []))

  -- Whether one cron is active.
  unfoldable pub check_cron : Time → ReplicaCron → Go (Bool × Time)
  check_cron now rc = do
    zone ←
        wrap_err "failed to load time zone of cron %q" (rc.name ∷ [])
          (library.load_location rc.time_zone)
    wrap_err "failed to check active for cron %q" (rc.name ∷ [])
        (is_cron_active zone now rc.start rc.end)

  unfoldable pub find_active : Time → Option ActiveCron → List ReplicaCron → Go (Option ActiveCron)
  find_active now found [] = ok found
  find_active now found (rc ∷ crons) = do
    active ← check_cron now rc
    next ← take_active found rc active
    find_active now next crons

  unfoldable pub get_active_replica_cron : Time → List ReplicaCron → Go (Option ActiveCron)
  get_active_replica_cron now crons = find_active now none crons

  abbrev cron_value : Option ActiveCron → Option HorizontalPortraitValue
  cron_value none = none
  cron_value (some a) =
      some
        (record { provider = "Cron"; replicas = a.cron.replicas; expire_time = some a.expire_time })

  -- FetchPortraitValue of the cron provider.
  unfoldable pub fetch_cron_value : Time → List ReplicaCron → Go (Option HorizontalPortraitValue)
  fetch_cron_value now crons = do active ← get_active_replica_cron now crons; ok (cron_value active)
