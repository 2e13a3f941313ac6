-- ===== src/Portrait/Tests.antt =====
-- The theorems on the portrait providers at concrete inputs.
use kapacity.Common.{String, List, [], ◌∷◌, some, if◌then◌else◌, ok, ◌≡◌, refl, string_eq, ◌==◌}
use kapacity.Common.Int.{ℤ, pos, ◌+ℤ◌}
use kapacity.Api.Meta.{NamespacedName}
use kapacity.Api.HorizontalPortrait.{ReplicaCron, ReplicaTimeSeriesPoint}
use kapacity.Portrait.Cron.{
  find_active, CronLibrary, ActiveCron, get_active_replica_cron, check_cron, is_cron_active,
}
use kapacity.Portrait.Cron.Overlap.{IsOnly, get_active_replica_cron-IsOnly}
use kapacity.Portrait.Dynamic.{find_point}
use kapacity.Portrait.Dynamic.Series.{IsLatest, find_point-IsLatest}

abbrev point : ℤ → ℤ → ReplicaTimeSeriesPoint
point t n = record { timestamp = t; replicas = n }

abbrev day : List ReplicaTimeSeriesPoint
day = point (pos 100) (pos 3) ∷ point (pos 200) (pos 6) ∷ point (pos 300) (pos 2) ∷ []

find_point-IsLatest_example : IsLatest (pos 250) day (find_point (pos 250) day)
find_point-IsLatest_example = find_point-IsLatest (pos 250) day

abbrev key : NamespacedName
key = record { namespace = "default"; name = "web-burst" }

-- The expression "soon" next occurs 10 after an instant, and any other one 20 after it.
abbrev library : CronLibrary
library = record {
  Zone = String;
  load_location = λ z. ok z;
  parse_standard = λ s. ok (λ z t. t +ℤ (if s == "soon" then pos 10 else pos 20));
}

abbrev cron : String → String → ℤ → ReplicaCron
cron s e n = record { name = s; time_zone = "UTC"; start = s; end = e; replicas = n }

abbrev active : ActiveCron
active = record { cron = cron "late" "soon" (pos 9); expire_time = pos 110 }

get_active_replica_cron-IsOnly_example :
    IsOnly library
      (pos 100)
      (cron "soon" "late" (pos 4) ∷ cron "late" "soon" (pos 9) ∷ [])
      (some active)
unfolding get_active_replica_cron find_active check_cron is_cron_active
get_active_replica_cron-IsOnly_example =
    get_active_replica_cron-IsOnly library (pos 100)
      (cron "soon" "late" (pos 4) ∷ cron "late" "soon" (pos 9) ∷ []) (some active) found
  where
    found :
        get_active_replica_cron library
          (pos 100)
          (cron "soon" "late" (pos 4) ∷ cron "late" "soon" (pos 9) ∷ [])
        ≡ ok (some active)
    found = refl
