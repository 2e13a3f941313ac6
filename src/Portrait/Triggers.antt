-- ===== src/Portrait/Triggers.antt =====
-- The trigger managers of pkg/portrait/provider/common.go, with what they started and stopped: a
-- cron task runs from its start to its stop, and a timer until it is cancelled. Hashing crons
-- (hashstructure) and adding a function to a crontab are parameters. What a goroutine sends later
-- on the event channel is left out.
pub mod Laws
use kapacity.Common.{
  ℕ, Bool, true, false, String, List, [], ◌∷◌, ◌++◌, Option, none, some, if◌then◌else◌, Go, ok, err,
  panic, Error, ◌>>=◌, ◌>>◌, wrap_err, nat_eq, ◌==◌,
}
use kapacity.Common.Int.{ℤ, eqb_ℤ}
use kapacity.Common.Time.{Time}
use kapacity.Api.Meta.{NamespacedName}
use kapacity.Api.HorizontalPortrait.{ReplicaCron}
use kapacity.Portrait.Table.{Table, load, delete, store}

-- cronTask: a crontab for each cron.
pub record CronTask : Type 0 where
  pub hash : ℕ
  pub crontabs : List ReplicaCron

pub data Action : Type 0 where
  start_task stop_task : CronTask → Action
  start_timer : Time → Action
  cancel_timer : Time → Action

pub record Triggers : Type 0 where
  pub cron_task_map : Table CronTask
  pub timer_canceller_map : Table Time
  pub actions : List Action

abbrev pub do_action : Action → Triggers → Triggers
do_action a s = record s { actions = s.actions ++ (a ∷ []) }

abbrev pub stop_loaded : NamespacedName → Option CronTask → Triggers → Triggers
stop_loaded key none s = s
stop_loaded key (some task) s =
    do_action (stop_task task) (record s { cron_task_map = delete key s.cron_task_map })

unfoldable pub stop_cron_task_trigger : NamespacedName → Triggers → Triggers
stop_cron_task_trigger key s = stop_loaded key (load key s.cron_task_map) s

abbrev pub cancel_loaded : NamespacedName → Option Time → Triggers → Triggers
cancel_loaded key none s = s
cancel_loaded key (some t) s =
    do_action (cancel_timer t) (record s { timer_canceller_map = delete key s.timer_canceller_map })

unfoldable pub stop_timer_trigger : NamespacedName → Triggers → Triggers
stop_timer_trigger key s = cancel_loaded key (load key s.timer_canceller_map) s

abbrev same_timer : Time → Option Time → Bool
same_timer t none = false
same_timer t (some u) = eqb_ℤ t u

unfoldable pub start_timer_trigger : NamespacedName → Time → Triggers → Triggers
unfolding stop_timer_trigger
start_timer_trigger key t s =
    if same_timer t (load key s.timer_canceller_map)
    then s
    else let cancelled = stop_timer_trigger key s in
      do_action (start_timer t)
        (record cancelled { timer_canceller_map = store key t cancelled.timer_canceller_map })

abbrev same_task : ℕ → Option CronTask → Bool
same_task hash none = false
same_task hash (some task) = hash == task.hash

module _ (hash : List ReplicaCron → Go ℕ) (load_location : String → Go (Unit {0}))
    (add_func : (spec : String) → Go (Unit {0})) where
  -- The loop that makes a crontab for each cron.
  unfoldable pub make_crontabs : List ReplicaCron → Go (List ReplicaCron)
  make_crontabs [] = ok []
  make_crontabs (rc ∷ crons) = do
    wrap_err "failed to load time zone of cron %q" (rc.name ∷ []) (load_location rc.time_zone)
    wrap_err "failed to add crontab start function of cron %q" (rc.name ∷ []) (add_func rc.start)
    wrap_err "failed to add crontab end function of cron %q" (rc.name ∷ []) (add_func rc.end)
    rest ← make_crontabs crons
    ok (rc ∷ rest)

  abbrev store_task : NamespacedName → CronTask → Triggers → Triggers
  store_task key task s =
      do_action (start_task task) (record s { cron_task_map = store key task s.cron_task_map })

  abbrev start_made :
      NamespacedName → ℕ → Go (List ReplicaCron) → Triggers → Triggers × Go (Unit {0})
  start_made key h (ok tabs) s = (store_task key (record { hash = h; crontabs = tabs }) s, ok tt)
  start_made key h (err e) s = (s, err e)
  start_made key h panic s = (s, panic)

  abbrev start_hashed :
      NamespacedName → List ReplicaCron → Go ℕ → Triggers → Triggers × Go (Unit {0})
  start_hashed key crons (ok h) s =
      if same_task h (load key s.cron_task_map)
      then (s, ok tt)
      else start_made key h (make_crontabs crons) (stop_cron_task_trigger key s)
  start_hashed key crons (err e) s = (s, err e)
  start_hashed key crons panic s = (s, panic)

  -- The managers after the call, which an error does not undo, with its result.
  unfoldable pub start_cron_task_trigger :
      NamespacedName → List ReplicaCron → Triggers → Triggers × Go (Unit {0})
  start_cron_task_trigger key crons s =
      start_hashed key crons (wrap_err "failed to hash crons" [] (hash crons)) s
