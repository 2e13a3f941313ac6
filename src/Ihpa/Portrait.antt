-- ===== src/Ihpa/Portrait.antt =====
-- updateAndFetchPortraitValue and cleanupRemovedPortraits of the IHPA controller. The format
-- `%s/%s` is `++`, and splitting at "/" is a parameter of Split.
pub mod Best
pub mod Fetches
pub mod Choice
use Prim.Native.String.{◌++◌}
use kapacity.Common.{
  Bool, true, false, ◌&&◌, ◌||◌, String, List, [], ◌∷◌, Option, none, some, if◌then◌else◌,
  string_eq, Go, ok, err, panic, errorf, wrapf,
}
use kapacity.Common.Int.{ℤ, ltb_ℤ, eqb_ℤ}
use kapacity.Common.Time.{Time, is_zero_ptr, before}
use kapacity.Common.Sets.{insert, difference}
use kapacity.Common.Dict.{find}
use kapacity.Common.Range.{MapRange}
use kapacity.Common.Prog.{Prog, done, ◌>>=◌, ◌>>◌, ask, then_go, on_go}
use kapacity.Api.Meta.{NamespacedName}
use kapacity.Api.Ihpa.{Ihpa, HorizontalPortraitProvider, HorizontalPortraitValue}
use kapacity.Ihpa.Calls.{
  Code, Providers, update_portrait_spec, fetch_portrait_value, cleanup_portrait, load_identifiers,
  store_identifiers, clock,
}

-- A value with its priority: the candidate so far.
pub record Candidate : Type 0 where
  pub value : HorizontalPortraitValue
  pub priority : ℤ

-- `now.Before(value.ExpireTime)` of *metav1.Time, which is false of nil.
abbrev before_ptr : Time → Option Time → Bool
before_ptr now none = false
before_ptr now (some t) = before now t

abbrev pub unexpired : Time → HorizontalPortraitValue → Bool
unexpired now v = is_zero_ptr v.expire_time || before_ptr now v.expire_time

-- The test on the priority and the replicas.
abbrev pub outranks : Candidate → Candidate → Bool
outranks a b =
    ltb_ℤ b.priority a.priority
    || (eqb_ℤ a.priority b.priority && ltb_ℤ b.value.replicas a.value.replicas)

abbrev takes_over : Candidate → Option Candidate → Bool
takes_over a none = true
takes_over a (some b) = outranks a b

-- One turn of the loop, once a value has been fetched.
unfoldable pub choose : Time → Candidate → Option Candidate → Option Candidate
choose now a best = if unexpired now a.value && takes_over a best then some a else best

abbrev pub candidate_value : Option Candidate → Option HorizontalPortraitValue
candidate_value none = none
candidate_value (some a) = some a.value

abbrev unknown_type {ℓ} : {A : Type ℓ} → String → Go A
unknown_type type = err (errorf "unknown portrait provider type %q" (type ∷ []))

-- The identifiers of the configured portraits, as "providerType/portraitIdentifier".
identifiers : Providers → Ihpa → List HorizontalPortraitProvider → List String → Go (List String)
identifiers providers ihpa [] seen = ok seen
identifiers providers ihpa (cfg ∷ cfgs) seen = elim (find cfg.type providers) [
  | none ↦ unknown_type cfg.type
  | some name ↦ identifiers providers ihpa cfgs (insert (cfg.type ++ "/" ++ name ihpa cfg) seen)
]

unfoldable pub fetched :
    Time
    → HorizontalPortraitProvider
    → Option HorizontalPortraitValue
    → Option Candidate
    → Option Candidate
unfolding choose
fetched now cfg none best = best
fetched now cfg (some v) best = choose now (record { value = v; priority = cfg.priority }) best

-- The loop over the configured providers.
unfoldable pub fetch_values :
    Providers
    → Ihpa
    → Time
    → List HorizontalPortraitProvider
    → Option Candidate
    → Code (Go (Option Candidate))
fetch_values providers ihpa now [] best = done (ok best)
fetch_values providers ihpa now (cfg ∷ cfgs) best = elim (find cfg.type providers) [
  | none ↦ done (unknown_type cfg.type)
  | some name ↦ do
    updated ← ask (update_portrait_spec cfg.type ihpa cfg)
    on_go updated (λ e. done (err (wrapf "failed to update portrait spec" [] e)))
        (λ _. do
          value ← ask (fetch_portrait_value cfg.type ihpa cfg)
          on_go value (λ e. done (err (wrapf "failed to fetch portrait value" [] e)))
              (λ v. fetch_values providers ihpa now cfgs (fetched now cfg v best)))
]

-- `types.NamespacedName{Namespace: ihpa.Namespace, Name: ihpa.Name}`
abbrev pub key_of : Ihpa → NamespacedName
key_of ihpa = record { namespace = ihpa.meta.namespace; name = ihpa.meta.name }

module _ (split : String → List String) (order : MapRange) where
  abbrev cleanup_one :
      Providers → Ihpa → (type identifier : String) → Code (Go (Unit {0})) → Code (Go (Unit {0}))
  cleanup_one providers ihpa type identifier next = elim (find type providers) [
    | none ↦ done (unknown_type type)
    | some name ↦ do
      cleaned ← ask (cleanup_portrait type ihpa identifier)
      on_go cleaned
          (λ e. done (
            err (
              wrapf "failed to clean up portrait %q of provider type %q" (identifier ∷ type ∷ [])
                e)))
          (λ _. next)
  ]

  abbrev cleanup_key :
      Providers → Ihpa → String → List String → Code (Go (Unit {0})) → Code (Go (Unit {0}))
  cleanup_key providers ihpa key (type ∷ identifier ∷ []) next =
      cleanup_one providers ihpa type identifier next
  cleanup_key providers ihpa key _ next =
      done (err (errorf "invalid portrait identifier key %q" (key ∷ [])))

  unfoldable pub cleanup_portraits : Providers → Ihpa → List String → Code (Go (Unit {0}))
  cleanup_portraits providers ihpa [] = done (ok tt)
  cleanup_portraits providers ihpa (key ∷ keys) =
      cleanup_key providers ihpa key (split key) (cleanup_portraits providers ihpa keys)

  unfoldable pub cleanup_removed_portraits :
      Providers → Ihpa → (previous current : List String) → Code (Go (Unit {0}))
  cleanup_removed_portraits providers ihpa previous current =
      cleanup_portraits providers ihpa (order.range (difference previous current))

  abbrev cleanup_if_known :
      Providers → Ihpa → Option (List String) → List String → Code (Go (Unit {0}))
  cleanup_if_known providers ihpa none current = done (ok tt)
  cleanup_if_known providers ihpa (some previous) current =
      cleanup_removed_portraits providers ihpa previous current

  abbrev value_of : Go (Option Candidate) → Go (Option HorizontalPortraitValue)
  value_of (ok a) = ok (candidate_value a)
  value_of (err e) = err e
  value_of panic = panic

  unfoldable pub update_and_fetch_portrait_value :
      Providers → Ihpa → Code (Go (Option HorizontalPortraitValue))
  unfolding identifiers
  update_and_fetch_portrait_value providers ihpa =
      then_go (identifiers providers ihpa ihpa.spec.portrait_providers []) (λ current. do
        previous ← ask (load_identifiers (key_of ihpa))
        cleaned ← cleanup_if_known providers ihpa previous current
        on_go cleaned (λ e. done (err (wrapf "failed to clean up removed portraits" [] e)))
            (λ _. do
              ask (store_identifiers (key_of ihpa) current)
              now ← ask clock
              best ← fetch_values providers ihpa now ihpa.spec.portrait_providers none
              done (value_of best)))
