-- ===== src/Prometheus/Relist/Registers.antt =====
-- What the external registry knows after updateExternalSeries.
use kapacity.Common.{
  Bool, true, false, String, List, [], ◌∷◌, ◌++◌, Option, none, some, All, Any, length, eqb, Go, ok,
  err, panic, Error, if◌then◌else◌, ◌==◌, string_eq, ◌≡◌, ◌≢◌, refl, sym, ◌∙◌, ap, arith,
}
use kapacity.Common.Dict.{GoMap, find, put, find-put}
use kapacity.Prometheus.Naming.{PromSeries, MetricNamer}
use kapacity.Prometheus.Registry.{
  SeriesInfo, ExternalInfos, info_of, add_external, add_external_series, add_all_external,
  set_external_series,
}
use kapacity.Prometheus.Lister.{Arrival, fetched_series, list_all_metrics}
use kapacity.Prometheus.Lister.Launched.{Fails}
use kapacity.Prometheus.Lister.Listed.{SlicesOf, Listed, list_all_metrics-Listed}
use kapacity.Prometheus.Relist.{then_set, update_external_series}

module _ {S : Type 0} where
  -- The adapter names a series, or returns an error.
  abbrev pub IsQuiet : MetricNamer S → Type 0
  IsQuiet namer = (s : PromSeries) → namer.metric_name_for_series s ≢ panic

  abbrev if_named : String → Go String → SeriesInfo S → List (SeriesInfo S) → List (SeriesInfo S)
  if_named k (ok name) info rest = if name == k then info ∷ rest else rest
  if_named k _ info rest = rest

  -- The infos of the series that their namer gives a name, in the order in which they are listed.
  unfoldable pub named_in : String → MetricNamer S → List PromSeries → List (SeriesInfo S)
  named_in k namer [] = []
  named_in k namer (s ∷ list) =
      if_named k (namer.metric_name_for_series s) (info_of namer s) (named_in k namer list)

  unfoldable pub infos_named :
      String → List (List PromSeries) → List (MetricNamer S) → List (SeriesInfo S)
  unfolding named_in
  infos_named k (slice ∷ slices) (namer ∷ namers) =
      named_in k namer slice ++ infos_named k slices namers
  infos_named k _ _ = []

  -- The last of a list, or else what is there already.
  abbrev pub last_or : Option (SeriesInfo S) → List (SeriesInfo S) → Option (SeriesInfo S)
  last_or o [] = o
  last_or o (x ∷ xs) = last_or (some x) xs

  last_or-append :
      (o : Option (SeriesInfo S)) (xs ys : List (SeriesInfo S))
      → last_or o (xs ++ ys) ≡ last_or (last_or o xs) ys
  last_or-append o [] ys = refl
  last_or-append o (x ∷ xs) ys = last_or-append (some x) xs ys

  if_last :
      (b : Bool) (o : Option (SeriesInfo S)) (x : SeriesInfo S) (rest : List (SeriesInfo S))
      → last_or o (if b then x ∷ rest else rest) ≡ last_or (if b then some x else o) rest
  if_last true o x rest = refl
  if_last false o x rest = refl

  -- One series more.
  add_named :
      (namer : MetricNamer S) (s : PromSeries) (name : Go String)
      → name ≢ panic
      → (infos : ExternalInfos S)
      → (out : ExternalInfos S) × (add_external namer s name infos ≡ ok out)
        × ((k : String) (rest : List (SeriesInfo S))
            → last_or (find k infos) (if_named k name (info_of namer s) rest)
              ≡ last_or (find k out) rest)
  add_named namer s (ok name) q infos = (
    put name (info_of namer s) infos,
    refl,
    λ k rest.
        if_last (name == k) (find k infos) (info_of namer s) rest
        ∙ ap (λ o. last_or o rest) (sym (find-put name k (info_of namer s) infos)),
  )
  add_named namer s (err e) q infos = (infos, refl, λ k rest. refl)
  add_named namer s panic q infos = absurd (q refl)

  add_series_lem :
      (namer : MetricNamer S)
      → IsQuiet namer
      → (list : List PromSeries) (infos : ExternalInfos S)
      → (out : ExternalInfos S) × (add_external_series namer list infos ≡ ok out)
        × ((k : String) → find k out ≡ last_or (find k infos) (named_in k namer list))
  unfolding add_external_series named_in
  add_series_lem namer q [] infos = (infos, refl, λ k. refl)
  add_series_lem namer q (s ∷ list) infos =
      let (next, e, f) = add_named namer s (namer.metric_name_for_series s) (q s) infos in
      let (out, d, g) = add_series_lem namer q list next in
      (out, rw (e, d) refl, λ k. g k ∙ sym (f k (named_in k namer list)))

  add_all_lem :
      (slices : List (List PromSeries)) (namers : List (MetricNamer S))
      → All IsQuiet namers
      → (infos : ExternalInfos S)
      → (out : ExternalInfos S) × (add_all_external slices namers infos ≡ ok out)
        × ((k : String) → find k out ≡ last_or (find k infos) (infos_named k slices namers))
  unfolding add_all_external infos_named
  add_all_lem [] namers q infos = (infos, refl, λ k. refl)
  add_all_lem (slice ∷ slices) [] q infos = (infos, refl, λ k. refl)
  add_all_lem (slice ∷ slices) (namer ∷ namers) (q, qs) infos =
      let (next, e, f) = add_series_lem namer q slice infos in
      let (out, d, g) = add_all_lem slices namers qs next in
      (
        out,
        rw (e, d) refl,
        λ k.
            g k
            ∙ ap (λ o. last_or o (infos_named k slices namers)) (f k)
            ∙ sym (
                last_or-append (find k infos) (named_in k namer slice)
                  (infos_named k slices namers)),
      )

  set_lem :
      (slices : List (List PromSeries)) (namers : List (MetricNamer S))
      → eqb (length slices) (length namers) ≡ true
      → All IsQuiet namers
      → (out : ExternalInfos S) × (set_external_series slices namers ≡ ok out)
        × ((k : String) → find k out ≡ last_or none (infos_named k slices namers))
  unfolding set_external_series find
  set_lem slices namers e q = rw e (add_all_lem slices namers q [])

  module _ (series : (selector : String) → Go (List (GoMap String))) where
    one_slice_each :
        (namers : List (MetricNamer S)) (slices : List (List PromSeries))
        → SlicesOf series namers slices
        → eqb (length slices) (length namers) ≡ true
    one_slice_each [] [] s = refl
    one_slice_each [] (x ∷ slices) s = absurd s
    one_slice_each (n ∷ namers) [] s = absurd s
    one_slice_each (n ∷ namers) (x ∷ slices) (a, s) = ground (arith, one_slice_each namers slices s)

    -- What an update of the external registry ends with.
    abbrev pub Registers : List (MetricNamer S) → Option (Go (ExternalInfos S)) → Type 0
    Registers namers none = ⊥
    Registers namers (some (ok infos)) =
        (slices : List (List PromSeries)) × SlicesOf series namers slices
        × ((k : String) → find k infos ≡ last_or none (infos_named k slices namers))
    Registers namers (some (err e)) = (e' : Error) × Fails series namers e'
    Registers namers (some panic) = Any (λ n. fetched_series series n.selector ≡ panic) namers

    then_set-Registers :
        (namers : List (MetricNamer S))
        → All IsQuiet namers
        → (r : Option (Go (List (List PromSeries)))) → Listed series namers r
        → Registers namers (then_set r (λ slices. set_external_series slices namers))
    then_set-Registers namers q none h = h
    then_set-Registers namers q (some (err e)) (e', f, g) = (e', f)
    then_set-Registers namers q (some panic) h = h
    then_set-Registers namers q (some (ok slices)) s =
        let (out, e, f) = set_lem slices namers (one_slice_each namers slices s) q in
        rw e (slices, s, f)

    -- For namers that name a series or return an error: in whatever order the answers arrive, the update
    -- of the external registry does not block, and replaces the infos by new ones unless fetching the
    -- series of some namer's selector fails. A metric is then known by the last series that is given
    -- its name, over the namers and what they keep of the series of their selectors, in order, and not
    -- known if no series has the name. It panics only if fetching a selector's series does.
    pub update_external_series-Registers :
        (arrival : Arrival) (namers : List (MetricNamer S))
        → All IsQuiet namers
        → Registers namers (update_external_series series arrival namers)
    unfolding update_external_series
    update_external_series-Registers arrival namers q =
        then_set-Registers namers q (list_all_metrics series arrival namers)
          (list_all_metrics-Listed series arrival namers)
