-- ===== src/Portrait/Cron/Overlap.antt =====
-- getActiveReplicaCron against the activity of each cron.
use kapacity.Common.{
  Bool, true, false, List, [], ◌∷◌, ◌++◌, All, Option, none, some, Go, ok, err, panic, ◌≡◌, refl,
  ap, ◌>>=◌,
}
use kapacity.Common.Time.{Time}
use kapacity.Api.HorizontalPortrait.{ReplicaCron}
use kapacity.Portrait.Cron.{
  CronLibrary, ActiveCron, check_cron, take_active, find_active, get_active_replica_cron,
}

module _ (library : CronLibrary) (now : Time) where
  -- A cron that can be read, and is not active.
  abbrev pub Idle : ReplicaCron → Type 0
  Idle rc = (t : Time) × (check_cron library now rc ≡ ok (false, t))

  -- The active cron, which is the only one, with its end; or none is active.
  abbrev pub IsOnly : List ReplicaCron → Option ActiveCron → Type 0
  IsOnly crons none = All Idle crons
  IsOnly crons (some a) =
      (xs : List ReplicaCron) × (ys : List ReplicaCron) × (crons ≡ xs ++ a.cron ∷ ys)
      × All Idle xs
      × (check_cron library now a.cron ≡ ok (true, a.expire_time))
      × All Idle ys

  -- The same, once a cron has been found.
  abbrev Extends : Option ActiveCron → List ReplicaCron → Option ActiveCron → Type 0
  Extends none crons o = IsOnly crons o
  Extends (some a) crons o = (o ≡ some a) × All Idle crons

  before_rest :
      (rc : ReplicaCron) (crons : List ReplicaCron)
      → Idle rc
      → (found o : Option ActiveCron) → Extends found crons o
      → Extends found (rc ∷ crons) o
  before_rest rc crons i none none h = (i, h)
  before_rest rc crons i none (some a) (xs, ys, split, before, active, behind) =
      (rc ∷ xs, ys, ap (λ zs. rc ∷ zs) split, (i, before), active, behind)
  before_rest rc crons i (some b) o (e, h) = (e, (i, h))

  find_active-Extends :
      (found : Option ActiveCron) (crons : List ReplicaCron) (o : Option ActiveCron)
      → find_active library now found crons ≡ ok o
      → Extends found crons o
  unfolding find_active
  find_active-Extends none [] none h = tt
  find_active-Extends none [] (some a) h = cc
  find_active-Extends (some a) [] o h = (cc, tt)
  find_active-Extends found (rc ∷ crons) o h =
      go found (check_cron library now rc) refl h (λ next. find_active-Extends next crons o)
    where
      -- By what the first cron is.
      go :
          (found : Option ActiveCron) (r : Go (Bool × Time))
          → check_cron library now rc ≡ r
          → (r >>= λ active.
              take_active library found rc active >>= λ next. find_active library now next crons)
            ≡ ok o
          → ((next : Option ActiveCron)
              → find_active library now next crons ≡ ok o
              → Extends next crons o)
          → Extends found (rc ∷ crons) o
      go found (ok (false, t)) eq h ih = before_rest rc crons (t, eq) found o (ih found h)
      go none (ok (true, t)) eq h ih =
          let found_one = ih (some (record { cron = rc; expire_time = t })) h in
          rw found_one.0 ([], crons, refl, tt, eq, found_one.1)
      go (some a) (ok (true, t)) eq h ih = cc
      go found (err e) eq h ih = cc
      go found panic eq h ih = cc

  -- If the search for the cron in force succeeds, every cron could be read. With a cron as the answer,
  -- it is active, its end is the end that is returned, and every other one is idle; without, all are
  -- idle. Crons that overlap are an error, then.
  pub get_active_replica_cron-IsOnly :
      (crons : List ReplicaCron) (o : Option ActiveCron)
      → get_active_replica_cron library now crons ≡ ok o
      → IsOnly crons o
  unfolding get_active_replica_cron
  get_active_replica_cron-IsOnly crons o h = find_active-Extends none crons o h
