-- ===== src/Ihpa/Gray/Tests.antt =====
-- The theorem on the rounds of a gray change at a concrete object.
use kapacity.Common.{ℕ, ◌+◌, false, List, [], ◌∷◌, ◌*◌, none, some, refl, arith}
use kapacity.Common.Int.{pos}
use kapacity.Common.Time.{Time, second}
use kapacity.Pod.Data.{cutoff}
use kapacity.Api.Ihpa.{Ihpa, GrayStrategy, HorizontalPortraitValue, ScaleMode}
use kapacity.Ihpa.Gray.{strategy_for}
use kapacity.Ihpa.Gray.Progress.{InChange}
use kapacity.Ihpa.Gray.Completes.{
  generate_rounds, AllApart, IsApart, IsComplete, generate_rounds-IsComplete,
}

abbrev slowly : GrayStrategy
slowly = record {
  gray_state = cutoff;
  change_interval_seconds = pos 60;
  change_percent = pos 20;
  observation_seconds = pos 300;
}

abbrev ten : HorizontalPortraitValue
ten = record { provider = "Static"; replicas = pos 10; expire_time = none }

abbrev five : HorizontalPortraitValue
five = record { provider = "Static"; replicas = pos 5; expire_time = none }

-- A scale down from 10 to 5 that has just begun.
abbrev begun : Ihpa
begun = record {
  meta = record {
    namespace = "default";
    name = "web";
    uid = "1";
    generation = pos 1;
    deletion_timestamp = none;
    finalizers = [];
  };
  spec = record {
    scale_target_ref = record { api_version = "apps/v1"; kind = "Deployment"; name = "web" };
    paused = false;
    min_replicas = pos 2;
    max_replicas = pos 8;
    scale_mode = ScaleMode.auto;
    portrait_providers = [];
    behavior = record {
      scale_up = record { disabled = false; gray_strategy = none };
      scale_down = record { disabled = false; gray_strategy = some slowly };
      replica_profile = none;
    };
  };
  status = record {
    previous_portrait_value = some ten;
    current_portrait_value = some five;
    gray = some (record { gray_percent = pos 0; last_update_time = pos 0 });
    conditions = [];
  };
}

begun-InChange : InChange slowly ten five 0 (pos 0) begun
unfolding strategy_for
begun-InChange = record {
  active = refl;
  strategy = refl;
  previous = refl;
  current = refl;
  gray = refl;
  above = refl;
  below = refl;
}

-- Rounds that are 300 seconds apart.
abbrev later_rounds : List Time
later_rounds =
    pos (600 * second)
    ∷ pos (900 * second)
    ∷ pos (1200 * second)
    ∷ pos (1500 * second)
    ∷ pos (1800 * second)
    ∷ []

apart_lem : (a : ℕ) → IsApart slowly (pos (a * second)) (pos ((a + 300) * second))
apart_lem a = record { later = ground arith; changed = ground arith; observed = ground arith }

all_apart : AllApart slowly (pos 0) (pos (300 * second) ∷ later_rounds)
all_apart = (
  apart_lem 0,
  (apart_lem 300, (apart_lem 600, (apart_lem 900, (apart_lem 1200, (apart_lem 1500, tt))))),
)

generate_rounds-IsComplete_example :
    IsComplete five (generate_rounds (pos (300 * second)) later_rounds begun)
generate_rounds-IsComplete_example =
    generate_rounds-IsComplete slowly ten five 20 (omega arith) refl (omega arith) later_rounds
      (pos (300 * second)) (pos 0) (pos 0) 0 begun begun-InChange (omega arith) (omega arith)
      all_apart (omega arith)
