-- ===== src/Hp/Tracked.antt =====
-- The external algorithm jobs of one portrait as a world outside of the controller: the type that
-- the controller saw last, and the types of which a job exists.
use kapacity.Common.{
  Bool, true, String, Option, none, some, ◌⊎◌, Go, ok, err, panic, ◌≡◌, ◌≢◌, sym, subst, string_eq,
}
use kapacity.Common.World.{World}
use kapacity.Util.Finalizer.{Finalizers}
use kapacity.Api.Meta.{NamespacedName}
use kapacity.Api.HorizontalPortrait.{HorizontalPortrait}
use kapacity.Hp.Calls.{
  Call, Reply, get_hp, patch_hp, load_job_type, store_job_type, delete_job_type, update_job,
  cleanup_job,
}
use kapacity.Hp.Job.{key_of}

pub record Jobs : Type 0 where
  pub seen : Option String
  pub runs : String → Bool

-- Every job that exists is of the type seen last.
abbrev pub Tracked : Jobs → Type 0
Tracked s = (u : String) → s.runs u ≡ true → s.seen ≡ some u

abbrev pub Idle : Jobs → Type 0
Idle s = (u : String) → ¬ (s.runs u ≡ true)

abbrev pub HasKey : NamespacedName → Go HorizontalPortrait → Type 0
HasKey n (ok o) = key_of o ≡ n
HasKey n _ = Unit

-- What a call may do: a job is made by an update of its type only, an update that fails may have
-- made it, and a clean up that succeeds leaves no job of its type.
abbrev pub Moves : Jobs → (c : Call) → Reply c → Jobs → Type 0
Moves s (get_hp n) r t = (t ≡ s) × HasKey n r
Moves s (patch_hp o p) r t = (t ≡ s) × HasKey (key_of o) r
Moves s (load_job_type n) r t = (t ≡ s) × (r ≡ s.seen)
Moves s (store_job_type n type) r t = t ≡ record s { seen = some type }
Moves s (delete_job_type n) r t = t ≡ record s { seen = none }
Moves s (update_job type hp j) r t =
    (t.seen ≡ s.seen) × ((u : String) → t.runs u ≡ true → (u ≡ type) ⊎ (s.runs u ≡ true))
Moves s (cleanup_job type hp) (ok x) t =
    (t.seen ≡ s.seen) × ((u : String) → t.runs u ≡ true → (s.runs u ≡ true) × (u ≢ type))
Moves s (cleanup_job type hp) _ t =
    (t.seen ≡ s.seen) × ((u : String) → t.runs u ≡ true → s.runs u ≡ true)
Moves s _ r t = t ≡ s

-- The guards of single calls.
abbrev pub Permits : Finalizers → NamespacedName → Jobs → Call → Type 0
Permits fin request s (patch_hp o p) = fin.contains o.meta ≡ true → Idle s
Permits fin request s (load_job_type n) = n ≡ request
Permits fin request s (store_job_type n type) = (n ≡ request) × (Idle s ⊎ (s.seen ≡ some type))
Permits fin request s (delete_job_type n) = (n ≡ request) × Idle s
Permits fin request s (update_job type hp j) = s.seen ≡ some type
Permits fin request s (cleanup_job type hp) = s.seen ≡ some type
Permits fin request s _ = Unit

abbrev pub jobs_world : Finalizers → NamespacedName → World Call Reply Jobs
jobs_world fin request = record {
  moves = Moves;
  permits = λ s c. Tracked s × Permits fin request s c;
  crashes = Tracked;
}

abbrev pub Kept : {A : Type 0} → Jobs → A → Type 0
Kept s a = Tracked s

abbrev pub Emptied : Jobs → Go (Unit {0}) → Type 0
Emptied s (ok u) = Tracked s × Idle s
Emptied s _ = Tracked s

pub kept : (s t : Jobs) → Tracked s → t ≡ s → Tracked t
kept s t h e = subst Tracked (sym e) h

pub Emptied-Tracked : (s : Jobs) (r : Go (Unit {0})) → Emptied s r → Tracked s
Emptied-Tracked s (ok u) h = h.0
Emptied-Tracked s (err e) h = h
Emptied-Tracked s panic h = h
