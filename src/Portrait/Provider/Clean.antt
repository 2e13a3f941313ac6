-- ===== src/Portrait/Provider/Clean.antt =====
-- CleanupPortrait of dynamic.go: the triggers, and the server.
use kapacity.Common.{
  false, String, List, [], ◌∷◌, Option, none, some, if◌then◌else◌, ◌==◌, Go, ok, err, panic,
  not_found, foreign, errorf, wrapf, ◌≡◌, ◌≢◌, refl, sym, ap, subst, ◌∙◌, wrap_err, Bool-cases, inl,
  inr,
}
use kapacity.Common.Prog.{pure_go}
use kapacity.Common.Time.{Time, is_zero_ptr}
use kapacity.Common.World.{World, Reads, Keeps, on_found-Keeps}
use kapacity.Api.Meta.{NamespacedName}
use kapacity.Api.Ihpa.{Ihpa}
use kapacity.Api.HorizontalPortrait.{HorizontalPortrait}
use kapacity.Portrait.Table.{load, load-delete, name_eq}
use kapacity.Portrait.Triggers.{
  Triggers, CronTask, stop_cron_task_trigger, stop_timer_trigger, stop_loaded, cancel_loaded,
}
use kapacity.Portrait.Provider.{
  Call, Reply, get_hp, delete_hp, get_portrait_identifier, ignore_not_found, portrait_key,
  delete_portrait, cleanup_portrait,
}
use kapacity.Portrait.Provider.Owned.{Server, Moves, Deletes, Ends, EndsBy}

abbrev pub CleansUp : NamespacedName → Server → Call → Type 0
CleansUp n s (get_hp m) = m ≡ n
CleansUp n s (delete_hp o) = s ≡ some o
CleansUp n s _ = ⊥

abbrev pub cleaning : NamespacedName → World Call Reply Server
cleaning n = record { moves = Moves; permits = CleansUp n; crashes = λ s. ⊥ }

-- There is no object, or it is being deleted and waits for finalizers to be taken out.
abbrev pub IsGoing : Server → Type 0
IsGoing none = Unit
IsGoing (some o) = (is_zero_ptr o.meta.deletion_timestamp ≡ false) × (o.meta.finalizers ≢ [])

abbrev pub Gone : Server → Go (Unit {0}) → Type 0
Gone s (ok u) = IsGoing s
Gone s _ = Unit

none-IsGoing : (s : Server) → s ≡ none → IsGoing s
none-IsGoing s e = subst IsGoing (sym e) tt

EndsBy-IsGoing :
    (o : HorizontalPortrait) (finalizers : List String) (t : Server)
    → o.meta.finalizers ≡ finalizers
    → EndsBy o finalizers t
    → IsGoing t
EndsBy-IsGoing o [] t e h = none-IsGoing t h
EndsBy-IsGoing o (f ∷ fs) t e (time, set, h) = subst IsGoing (sym h) (set, λ k. cc (sym e ∙ k))

Ends-IsGoing : (s t : Server) → Ends s t → IsGoing t
Ends-IsGoing none t h = none-IsGoing t h
Ends-IsGoing (some o) t h = EndsBy-IsGoing o o.meta.finalizers t refl h

-- The triggers of one key are gone, those of the others are as they were.
abbrev pub Stopped : NamespacedName → (before after : Triggers) → Type 0
Stopped n s t =
    (j : NamespacedName)
    → (load j t.cron_task_map ≡ (if n == j then none else load j s.cron_task_map))
      × (load j t.timer_canceller_map ≡ (if n == j then none else load j s.timer_canceller_map))

missing :
    {V : Type 0} (n j : NamespacedName) (f : NamespacedName → Option V)
    → f n ≡ none
    → f j ≡ (if n == j then none else f j)
missing n j f e = elim (Bool-cases (n == j)) [
  | inl same ↦ rw same (ap f (sym ((name_eq.agrees n j).0 same)) ∙ e)
  | inr other ↦ rw other refl
]

cron_stopped :
    (n j : NamespacedName) (s : Triggers) (o : Option CronTask)
    → load n s.cron_task_map ≡ o
    → load j (stop_loaded n o s).cron_task_map ≡ (if n == j then none else load j s.cron_task_map)
cron_stopped n j s none e = missing n j (λ k. load k s.cron_task_map) e
cron_stopped n j s (some task) e = load-delete n j s.cron_task_map

timer_stopped :
    (n j : NamespacedName) (s : Triggers) (o : Option Time)
    → load n s.timer_canceller_map ≡ o
    → load j (cancel_loaded n o s).timer_canceller_map
      ≡ (if n == j then none else load j s.timer_canceller_map)
timer_stopped n j s none e = missing n j (λ k. load k s.timer_canceller_map) e
timer_stopped n j s (some t) e = load-delete n j s.timer_canceller_map

cron_kept :
    (n : NamespacedName) (s : Triggers) (o : Option Time)
    → (cancel_loaded n o s).cron_task_map ≡ s.cron_task_map
cron_kept n s none = refl
cron_kept n s (some t) = refl

timer_kept :
    (n : NamespacedName) (s : Triggers) (o : Option CronTask)
    → (stop_loaded n o s).timer_canceller_map ≡ s.timer_canceller_map
timer_kept n s none = refl
timer_kept n s (some t) = refl

stop-Stopped :
    (n : NamespacedName) (s : Triggers)
    → Stopped n s (stop_timer_trigger n (stop_cron_task_trigger n s))
unfolding stop_timer_trigger stop_cron_task_trigger
stop-Stopped n s j =
    let task = load n s.cron_task_map in
    let mid = stop_loaded n task s in
    let timer = load n mid.timer_canceller_map in
    (
      ap (load j) (cron_kept n mid timer) ∙ cron_stopped n j s task refl,
      timer_stopped n j mid timer refl
          ∙ ap (λ m. if n == j then none else load j m) (timer_kept n s task),
    )

module _ (to_lower : String → String) (split : (text separator : String) → List String) where
  deleted :
      (n : NamespacedName) (old q : Server) (args : List String) (r : Go (Unit {0}))
      → Deletes old r q
      → Keeps
          (cleaning n)
          Gone
          q
          (pure_go (wrap_err "failed to delete HorizontalPortrait %q" args (ignore_not_found r)))
  deleted n old q args (ok u) m = Ends-IsGoing old q m
  deleted n old q args (err not_found) m = none-IsGoing q m
  deleted n old q args (err (foreign x)) m = tt
  deleted n old q args (err (errorf x l)) m = tt
  deleted n old q args (err (wrapf x l e)) m = tt
  deleted n old q args panic m = m

  delete_portrait-Gone :
      (n : NamespacedName) (s : Server)
      → Keeps (cleaning n) Gone s (delete_portrait to_lower split n)
  unfolding delete_portrait
  delete_portrait-Gone n s = (
    refl,
    λ r q m.
        on_found-Keeps (cleaning n) Gone q r _ _ _
          (λ e. none-IsGoing q (m.0 ∙ subst (Reads s) e m.1)) (λ e d. tt)
          (λ j e. (m.0 ∙ subst (Reads s) e m.1, λ v p w. deleted n q p _ v w))
          (λ e. subst (Reads s) e m.1),
  )

  -- CleanupPortrait, called with the identifier of a dynamic provider, stops the triggers of the
  -- portrait of the provider's type and leaves those of every other portrait. Of the server it
  -- reads and deletes that portrait only; without an error, there is no such portrait any more, or
  -- it has finalizers and its deletion timestamp is set. It is relied on that the server takes an
  -- object without finalizers away and otherwise sets the timestamp, and that strings.Split cuts the
  -- identifier at its one dash, so the type has none.
  pub cleanup_portrait-Gone :
      (ihpa : Ihpa) (portrait_type : String) (s : Triggers) (server : Server)
      → split (get_portrait_identifier portrait_type) "-" ≡ "Dynamic" ∷ portrait_type ∷ []
      → Stopped
          (portrait_key to_lower ihpa portrait_type)
          s
          (cleanup_portrait to_lower split ihpa (get_portrait_identifier portrait_type) s).0
        × Keeps
            (cleaning (portrait_key to_lower ihpa portrait_type))
            Gone
            server
            (cleanup_portrait to_lower split ihpa (get_portrait_identifier portrait_type) s).1
  unfolding cleanup_portrait
  cleanup_portrait-Gone ihpa portrait_type s server e = rw e (
    stop-Stopped (portrait_key to_lower ihpa portrait_type) s,
    delete_portrait-Gone (portrait_key to_lower ihpa portrait_type) server,
  )
