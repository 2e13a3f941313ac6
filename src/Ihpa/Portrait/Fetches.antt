-- ===== src/Ihpa/Portrait/Fetches.antt =====
-- The calls of updateAndFetchPortraitValue, under any contract that allows those of portraits.
use kapacity.Common.{
  String, List, [], ◌∷◌, Option, none, some, Go, ok, err, panic, Error, string_eq, ◌≡◌, refl,
  Option-cases, inl, inr,
}
use kapacity.Common.Time.{Time}
use kapacity.Common.Range.{MapRange}
use kapacity.Common.Sets.{difference}
use kapacity.Common.Dict.{find}
use kapacity.Common.Prog.{Contract, Safe, Safe->>=, on_go-Safe, on_go, then_go}
use kapacity.Api.Meta.{NamespacedName}
use kapacity.Api.Ihpa.{Ihpa, HorizontalPortraitProvider}
use kapacity.Ihpa.Calls.{
  Call, Reply, Code, Providers, update_portrait_spec, fetch_portrait_value, cleanup_portrait,
  load_identifiers, store_identifiers, clock,
}
use kapacity.Ihpa.Portrait.{
  Candidate, fetched, fetch_values, cleanup_one, cleanup_key, cleanup_portraits,
  cleanup_removed_portraits, cleanup_if_known, identifiers, update_and_fetch_portrait_value,
}

pub record AllowsPortraits (t : Contract Call Reply) : Type 0 where
  pub panicking : t.panics
  pub timed : t.allows clock
  pub loads : (n : NamespacedName) → t.allows (load_identifiers n)
  pub stores : (n : NamespacedName) (ids : List String) → t.allows (store_identifiers n ids)
  pub updates :
      (type : String) (o : Ihpa) (cfg : HorizontalPortraitProvider)
      → t.allows (update_portrait_spec type o cfg)
  pub fetches :
      (type : String) (o : Ihpa) (cfg : HorizontalPortraitProvider)
      → t.allows (fetch_portrait_value type o cfg)
  pub cleans : (type : String) (o : Ihpa) (id : String) → t.allows (cleanup_portrait type o id)

module _ (t : Contract Call Reply) (a : AllowsPortraits t) (providers : Providers)
    (ihpa : Ihpa) where
  open a use {panicking, timed, loads, stores, updates, fetches, cleans}

  abbrev Fine : {A : Type 0} → Code A → Type 0
  Fine m = Safe t (λ r. Unit) m

  on_go-Fine :
      {A B : Type 0} (r : Go A) (failure : Error → Code B) (next : A → Code B)
      → ((e : Error) → Fine (failure e))
      → ((x : A) → Fine (next x))
      → Fine (on_go r failure next)
  on_go-Fine r failure next h k =
      on_go-Safe t (λ r. Unit) r failure next (λ e _. h e) (λ x _. k x) (λ _. panicking)

  fetch_values-Fine :
      (now : Time) (cfgs : List HorizontalPortraitProvider) (best : Option Candidate)
      → Fine (fetch_values providers ihpa now cfgs best)
  unfolding fetch_values
  fetch_values-Fine now [] best = tt
  fetch_values-Fine now (cfg ∷ cfgs) best = elim (Option-cases (find cfg.type providers)) [
    | inl e ↦ rw (e, fetch_values) tt
    | inr (name, e) ↦
        rw (e, fetch_values)
          (
            updates cfg.type ihpa cfg,
            λ r h.
                on_go-Fine r _ _ (λ x. tt)
                  (λ u. (
                    fetches cfg.type ihpa cfg,
                    λ q d.
                        on_go-Fine q _ _ (λ x. tt)
                          (λ v. fetch_values-Fine now cfgs (fetched now cfg v best)),
                  )),
          )
  ]

  module _ (split : String → List String) (order : MapRange) where
    cleanup_one-Fine :
        (type identifier : String) (next : Code (Go (Unit {0})))
        → Fine next
        → (o : Option (Ihpa → HorizontalPortraitProvider → String)) → find type providers ≡ o
        → Fine (cleanup_one split order providers ihpa type identifier next)
    cleanup_one-Fine type identifier next h none e = rw (e, cleanup_one) tt
    cleanup_one-Fine type identifier next h (some name) e =
        rw (e, cleanup_one)
          (cleans type ihpa identifier, λ r d. on_go-Fine r _ _ (λ x. tt) (λ u. h))

    cleanup_key-Fine :
        (key : String) (parts : List String) (next : Code (Go (Unit {0})))
        → Fine next
        → Fine (cleanup_key split order providers ihpa key parts next)
    cleanup_key-Fine key (type ∷ identifier ∷ []) next h =
        cleanup_one-Fine type identifier next h (find type providers) refl
    cleanup_key-Fine key [] next h = tt
    cleanup_key-Fine key (x ∷ []) next h = tt
    cleanup_key-Fine key (x ∷ y ∷ z ∷ rest) next h = tt

    cleanup_portraits-Fine :
        (keys : List String) → Fine (cleanup_portraits split order providers ihpa keys)
    unfolding cleanup_portraits
    cleanup_portraits-Fine [] = tt
    cleanup_portraits-Fine (key ∷ keys) =
        cleanup_key-Fine key (split key) _ (cleanup_portraits-Fine keys)

    cleanup_if_known-Fine :
        (previous : Option (List String)) (current : List String)
        → Fine (cleanup_if_known split order providers ihpa previous current)
    unfolding cleanup_removed_portraits
    cleanup_if_known-Fine none current = tt
    cleanup_if_known-Fine (some previous) current =
        cleanup_portraits-Fine (order.range (difference previous current))

    then_go-Fine :
        {A B : Type 0} (r : Go A) (f : A → Code (Go B))
        → ((x : A) → Fine (f x))
        → Fine (then_go r f)
    then_go-Fine (ok x) f h = h x
    then_go-Fine (err e) f h = tt
    then_go-Fine panic f h = panicking

    pub update_and_fetch_portrait_value-Fine :
        Safe t (λ r. Unit) (update_and_fetch_portrait_value split order providers ihpa)
    unfolding update_and_fetch_portrait_value
    update_and_fetch_portrait_value-Fine =
        then_go-Fine (identifiers providers ihpa ihpa.spec.portrait_providers []) _ λ current. (
          loads _,
          λ previous h.
              Safe->>= t (λ r. Unit) (λ r. Unit)
                (cleanup_if_known split order providers ihpa previous current) _
                (cleanup_if_known-Fine previous current)
                (λ cleaned u.
                  on_go-Fine cleaned _ _ (λ e. tt)
                    (λ _. (
                      stores _ current,
                      λ q d. (
                        timed,
                        λ now e.
                            Safe->>= t (λ r. Unit) (λ r. Unit)
                              (fetch_values providers ihpa now ihpa.spec.portrait_providers none) _
                              (fetch_values-Fine now ihpa.spec.portrait_providers none)
                              (λ best v. tt),
                      ),
                    ))),
        )
