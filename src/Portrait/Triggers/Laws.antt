-- ===== src/Portrait/Triggers/Laws.antt =====
-- The timer trigger manager when it is called twice.
use kapacity.Common.{true, ◌==◌, nat_eq, ◌≡◌, refl, Bool-cases, inl, inr}
use kapacity.Common.Int.{eqb_ℤ, eqb_ℤ_iff}
use kapacity.Common.Time.{Time}
use kapacity.Api.Meta.{NamespacedName}
use kapacity.Portrait.Table.{load, load-store, name_eq}
use kapacity.Portrait.Triggers.{Triggers, start_timer_trigger, stop_timer_trigger, same_timer}

key_self : (k : NamespacedName) → (k == k) ≡ true
key_self k = (name_eq.agrees k k).1 refl

time_self : (t : Time) → eqb_ℤ t t ≡ true
time_self t = (eqb_ℤ_iff t t).1 refl

load_timer :
    (key : NamespacedName) (t : Time) (s : Triggers)
    → same_timer t (load key (start_timer_trigger key t s).timer_canceller_map) ≡ true
unfolding start_timer_trigger
load_timer key t s = elim (Bool-cases (same_timer t (load key s.timer_canceller_map))) [
  | inl e ↦ rw (e, e) refl
  | inr e ↦
      rw (e, load-store key key t (stop_timer_trigger key s).timer_canceller_map, key_self key)
        (time_self t)
]

same_again :
    (key : NamespacedName) (t : Time) (s : Triggers)
    → same_timer t (load key s.timer_canceller_map) ≡ true
    → start_timer_trigger key t s ≡ s
unfolding start_timer_trigger
same_again key t s e = rw e refl

-- A timer that is set to the same time again is left alone: the second call cancels nothing and
-- starts nothing.
pub start_timer_trigger_twice :
    (key : NamespacedName) (t : Time) (s : Triggers)
    → start_timer_trigger key t (start_timer_trigger key t s) ≡ start_timer_trigger key t s
start_timer_trigger_twice key t s =
    same_again key t (start_timer_trigger key t s) (load_timer key t s)
