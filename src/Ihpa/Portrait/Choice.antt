-- ===== src/Ihpa/Portrait/Choice.antt =====
-- The loop over the portrait providers, in a world where each of them answers.
use kapacity.Common.{
  String, List, [], ◌∷◌, Option, none, some, Go, ok, err, panic, wrapf, All, ◌≡◌, refl, subst,
}
use kapacity.Common.Time.{Time}
use kapacity.Common.Dict.{find}
use kapacity.Common.Prog.{done, call, Contract, Safe, on_go}
use kapacity.Api.Ihpa.{Ihpa, HorizontalPortraitProvider, HorizontalPortraitValue}
use kapacity.Ihpa.Calls.{Call, Reply, Providers, update_portrait_spec, fetch_portrait_value}
use kapacity.Ihpa.Portrait.{Candidate, fetched, fetch_values}
use kapacity.Ihpa.Portrait.Best.{IsBest, offer, offered, fetched-IsBest}

-- What is relied on: every update succeeds, and every fetch gives the value of its provider.
abbrev pub Gives :
    (HorizontalPortraitProvider → Option HorizontalPortraitValue) → (c : Call) → Reply c → Type 0
Gives gives (update_portrait_spec t o cfg) r = r ≡ ok tt
Gives gives (fetch_portrait_value t o cfg) r = r ≡ ok (gives cfg)
Gives gives _ r = Unit

abbrev pub providing :
    (HorizontalPortraitProvider → Option HorizontalPortraitValue) → Contract Call Reply
providing gives = record { relies = Gives gives; allows = λ c. Unit; panics = ⊥ }

abbrev pub IsKnown : Providers → HorizontalPortraitProvider → Type 0
IsKnown providers cfg =
    (name : Ihpa → HorizontalPortraitProvider → String) × (find cfg.type providers ≡ some name)

-- The result is a value, and it is the best of those offered.
abbrev pub IsChoice : Time → List Candidate → Go (Option Candidate) → Type 0
IsChoice now offers r = (best : Option Candidate) × (r ≡ ok best) × IsBest now offers best

module _ (gives : HorizontalPortraitProvider → Option HorizontalPortraitValue) (now : Time) where
  -- The rest of the loop, at any candidate and any values seen.
  abbrev Goes : Providers → Ihpa → List HorizontalPortraitProvider → Type 0
  Goes providers ihpa cfgs =
      (offers : List Candidate) (best : Option Candidate)
      → IsBest now offers best
      → Safe (providing gives) (IsChoice now (offered gives cfgs offers))
          (fetch_values providers ihpa now cfgs best)

  -- Once the provider has been updated, by its answer.
  after_fetch :
      (providers : Providers) (ihpa : Ihpa)
      → (cfg : HorizontalPortraitProvider) (cfgs : List HorizontalPortraitProvider)
      → Goes providers ihpa cfgs
      → (offers : List Candidate) (best : Option Candidate) → IsBest now offers best
      → (r : Go (Option HorizontalPortraitValue)) → r ≡ ok (gives cfg)
      → Safe (providing gives) (IsChoice now (offered gives (cfg ∷ cfgs) offers)) (
          on_go r
            (λ e. done (err (wrapf "failed to fetch portrait value" [] e)))
            (λ v. fetch_values providers ihpa now cfgs (fetched now cfg v best)))
  after_fetch providers ihpa cfg cfgs rest offers best h (ok v) e =
      subst
        (λ x.
          Safe (providing gives) (IsChoice now (offered gives cfgs (offer cfg (gives cfg) offers)))
            (fetch_values providers ihpa now cfgs (fetched now cfg x best)))
        (same_value e)
        (rest (offer cfg (gives cfg) offers) (fetched now cfg (gives cfg) best)
          (fetched-IsBest now cfg (gives cfg) offers best h))
    where
      same_value : ok v ≡ ok (gives cfg) → gives cfg ≡ v
      same_value h = cc
  after_fetch providers ihpa cfg cfgs rest offers best h (err d) e = cc
  after_fetch providers ihpa cfg cfgs rest offers best h panic e = cc

  fetch_from :
      (providers : Providers) (ihpa : Ihpa) (cfgs : List HorizontalPortraitProvider)
      → All (IsKnown providers) cfgs
      → Goes providers ihpa cfgs
  unfolding fetch_values
  fetch_from providers ihpa [] known offers best h = (best, refl, h)
  fetch_from providers ihpa (cfg ∷ cfgs) ((name, eq), known) offers best h =
      rw (eq, fetch_values) (tt, go (fetch_from providers ihpa cfgs known))
    where
      -- By the answer to the update.
      go :
          Goes providers ihpa cfgs
          → (r : Go (Unit {0})) → r ≡ ok tt
          → Safe (providing gives) (IsChoice now (offered gives (cfg ∷ cfgs) offers)) (
              on_go r
                (λ e. done (err (wrapf "failed to update portrait spec" [] e)))
                (λ _. call (fetch_portrait_value cfg.type ihpa cfg) (λ value.
                  on_go value
                    (λ e. done (err (wrapf "failed to fetch portrait value" [] e)))
                    (λ v. fetch_values providers ihpa now cfgs (fetched now cfg v best)))))
      go rest (ok u) e = (tt, after_fetch providers ihpa cfg cfgs rest offers best h)
      go rest (err d) e = cc
      go rest panic e = cc

  pub fetch_values-IsChoice :
      (providers : Providers) (ihpa : Ihpa) (cfgs : List HorizontalPortraitProvider)
      → All (IsKnown providers) cfgs
      → Safe
          (providing gives)
          (IsChoice now (offered gives cfgs []))
          (fetch_values providers ihpa now cfgs none)
  fetch_values-IsChoice providers ihpa cfgs known = fetch_from providers ihpa cfgs known [] none tt
