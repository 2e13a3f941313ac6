-- ===== src/Hp/Loop/Jobs.antt =====
-- Reconcile of the HorizontalPortrait controller in the world of the portrait's external jobs.
use Prim.Native.String.{◌++◌}
use kapacity.Common.{
  String, Option, none, some, Go, ok, err, panic, Error, ◌≡◌, subst, ◌∙◌, ◌==◌, string_eq,
}
use kapacity.Common.Int.{ℤ}
use kapacity.Common.Time.{is_zero_ptr}
use kapacity.Common.Prog.{on_go, done, ask, ◌>>=◌, ◌>>◌, failed, finished}
use kapacity.Common.World.{Keeps, Keeps->>=, if-Keeps, on_go-Keeps, on_found-Keeps}
use kapacity.Util.Finalizer.{Finalizers}
use kapacity.Api.Meta.{NamespacedName}
use kapacity.Api.Algorithm.{ExternalJobPortraitAlgorithm}
use kapacity.Api.HorizontalPortrait.{
  HorizontalPortrait, HorizontalPortraitData, HorizontalPortraitStatus,
}
use kapacity.Hp.Calls.{Code, Registry, patch_hp, event}
use kapacity.Hp.Job.{key_of, fetch_external_algorithm_job_result}
use kapacity.Hp.Tracked.{
  Jobs, Tracked, Idle, HasKey, Moves, jobs_world, Kept, Emptied, Emptied-Tracked, kept,
}
use kapacity.Hp.Handover.{cleanup_last-Emptied, reconcile_job-Settled}
use kapacity.Hp.Loop.{
  set_horizontal_portrait_condition, update_status_if_needed, status_eq, error_out, store_data,
  with_data, fail_with, reconcile_external, generate, reconcile_internal, reconcile_live,
  ensure_finalizer, remove_finalizer, reconcile_deleted, reconcile_found, reconcile,
}

module _ (fin : Finalizers) (registry : Registry) (error_text : Error → String)
    (request : NamespacedName) where
  abbrev Steady : {A : Type 0} → Jobs → Code A → Type 0
  Steady s m = Keeps (jobs_world fin request) Kept s m

  and_then :
      {A B : Type 0} (s : Jobs) (m : Code A) (f : A → Code B)
      → Steady s m
      → ((t : Jobs) (a : A) → Tracked t → Steady t (f a))
      → Steady s (m >>= f)
  and_then s m f h k = Keeps->>= (jobs_world fin request) Kept Kept s m f h k

  on_go-Steady :
      {A B : Type 0} (s : Jobs) (r : Go A) (failure : Error → Code B) (next : A → Code B)
      → Tracked s
      → ((e : Error) → Steady s (failure e))
      → ((a : A) → Steady s (next a))
      → Steady s (on_go r failure next)
  on_go-Steady s r failure next h f n =
      on_go-Keeps (jobs_world fin request) Kept s r failure next (λ e _. f e) (λ a _. n a) (λ _. h)

  condition-Steady :
      (hp : HorizontalPortrait) (type status reason message : String) (s : Jobs)
      → Tracked s
      → Steady s (set_horizontal_portrait_condition hp type status reason message)
  unfolding set_horizontal_portrait_condition
  condition-Steady hp type status reason message s h = ((h, tt), λ r t m. kept s t h m)

  update-Steady :
      (hp : HorizontalPortrait) (original : HorizontalPortraitStatus) (s : Jobs)
      → Tracked s
      → Steady s (update_status_if_needed hp original)
  unfolding update_status_if_needed
  update-Steady hp original s h =
      if-Keeps (jobs_world fin request) Kept s (status_eq.beq original hp.status) _ _ (λ e. h)
        (λ e. ((h, tt), λ r t m. kept s t h m))

  error_out-Steady :
      (hp : HorizontalPortrait) (original : HorizontalPortraitStatus) (reason message : String)
      → (s : Jobs) → Tracked s
      → Steady s (error_out hp original reason message)
  unfolding error_out
  error_out-Steady hp original reason message s h = (
    (h, tt),
    λ r t m.
        and_then t _ _
          (condition-Steady hp "PortraitGenerated" "False" reason message t (kept s t h m))
          (λ q changed k.
            and_then q _ _ (update-Steady changed original q k)
              (λ p updated l. on_go-Steady p updated _ _ l (λ e. l) (λ o. l))),
  )

  fail_with-Steady :
      (hp : HorizontalPortrait) (original : HorizontalPortraitStatus) (reason prefix : String)
      → (s : Jobs) (e : Error) → Tracked s
      → Steady s (fail_with fin registry error_text hp original reason prefix e)
  fail_with-Steady hp original reason prefix s e h =
      and_then s _ _ (error_out-Steady hp original reason (prefix ++ ": " ++ error_text e) s h)
        (λ t u k. k)

  store_data-Steady :
      (hp : HorizontalPortrait) (original : HorizontalPortraitStatus)
      → (data_of : Option HorizontalPortraitData) (delay : ℤ) (s : Jobs) → Tracked s
      → Steady s (store_data hp original data_of delay)
  unfolding store_data
  store_data-Steady hp original none delay s h = h
  store_data-Steady hp original (some d) delay s h =
      and_then s _ _
        (condition-Steady (with_data hp d) "PortraitGenerated" "True" "SucceededGeneratePortrait"
          "portrait has been successfully generated" s h)
        (λ t changed k.
          and_then t _ _ (update-Steady changed original t k)
            (λ q updated l. on_go-Steady q updated _ _ l (λ e. l) (λ o. l)))

  fetch-Steady :
      (hp : HorizontalPortrait) (external : Option ExternalJobPortraitAlgorithm) (s : Jobs)
      → Tracked s
      → Steady s (fetch_external_algorithm_job_result registry hp external)
  unfolding fetch_external_algorithm_job_result
  fetch-Steady hp none s h = h
  fetch-Steady hp (some external) s h =
      if-Keeps (jobs_world fin request) Kept s
        (registry.has_result_fetcher external.result_source.type) _ _
        (λ known. ((h, tt), λ r t m. kept s t h m)) (λ unknown. h)

  reconcile_external-Steady :
      (hp : HorizontalPortrait) (s : Jobs)
      → key_of hp ≡ request
      → Tracked s
      → Steady s (reconcile_external fin registry error_text hp)
  unfolding reconcile_external
  reconcile_external-Steady hp s k h =
      and_then s _ _
        (reconcile_job-Settled fin registry request hp hp.spec.portrait.algorithm.external_job s k
          h)
        (λ t reconciled l.
          on_go-Steady t reconciled _ _ l (λ e. fail_with-Steady hp hp.status _ _ t e l)
            (λ u.
              and_then t _ _ (fetch-Steady hp hp.spec.portrait.algorithm.external_job t l)
                (λ q fetched n.
                  on_go-Steady q fetched _ _ n (λ e. fail_with-Steady hp hp.status _ _ q e n)
                    (λ d. store_data-Steady hp hp.status d _ q n))))

  generate-Steady :
      (hp : HorizontalPortrait) (s : Jobs)
      → Tracked s
      → Steady s (generate fin registry error_text hp)
  unfolding generate
  generate-Steady hp s h =
      if-Keeps (jobs_world fin request) Kept s
        (registry.has_generator hp.spec.portrait.portrait_type) _ _
        (λ known. (
          (h, tt),
          λ r t m.
              let l = kept s t h m in
              on_go-Steady t r _ _ l (λ e. fail_with-Steady hp hp.status _ _ t e l)
                (λ g. store_data-Steady hp hp.status g.0 g.1 t l),
        ))
        (λ unknown. and_then s _ _ (error_out-Steady hp hp.status _ _ s h) (λ t u l. l))

  reconcile_live-Steady :
      (hp : HorizontalPortrait) (s : Jobs)
      → key_of hp ≡ request
      → Tracked s
      → Steady s (reconcile_live fin registry error_text hp)
  unfolding reconcile_live reconcile_internal
  reconcile_live-Steady hp s k h =
      if-Keeps (jobs_world fin request) Kept s (hp.spec.portrait.algorithm.type == "ExternalJob") _
        _ (λ external. reconcile_external-Steady hp s k h)
        (λ internal.
          Keeps->>= (jobs_world fin request) Emptied Kept s _ _
            (cleanup_last-Emptied fin registry request hp s k h)
            (λ t r c.
              let l = Emptied-Tracked t r c in
              on_go-Steady t r _ _ l (λ e. fail_with-Steady hp hp.status _ _ t e l)
                (λ u. generate-Steady hp t l)))

  abbrev Found : Jobs → Go HorizontalPortrait → Type 0
  Found s r = Tracked s × HasKey request r

  moved :
      (o p : HorizontalPortrait) (s t : Jobs) (r : Go HorizontalPortrait)
      → key_of o ≡ request
      → Tracked s
      → Moves s (patch_hp o p) r t
      → Found t r
  moved o p s t (ok q) k h m = (kept s t h m.0, m.1 ∙ k)
  moved o p s t (err e) k h m = (kept s t h m.0, tt)
  moved o p s t panic k h m = (kept s t h m.0, tt)

  ensure_finalizer-Found :
      (hp : HorizontalPortrait) (s : Jobs)
      → key_of hp ≡ request
      → Tracked s
      → Keeps (jobs_world fin request) Found s (ensure_finalizer fin registry error_text hp)
  unfolding ensure_finalizer
  ensure_finalizer-Found hp s k h =
      if-Keeps (jobs_world fin request) Found s (fin.contains hp.meta) _ _ (λ there. (h, k))
        (λ missing.
          ((h, λ there. cc), λ r t m. moved hp (record hp { meta = fin.add hp.meta }) s t r k h m))

  remove_finalizer-Steady :
      (hp : HorizontalPortrait) (s : Jobs)
      → Tracked s
      → Idle s
      → Steady s (remove_finalizer fin registry error_text hp)
  unfolding remove_finalizer
  remove_finalizer-Steady hp s h idle =
      if-Keeps (jobs_world fin request) Kept s (fin.contains hp.meta) _ _
        (λ there. ((h, λ _. idle), λ r t m. kept s t h m.0)) (λ missing. h)

  let_go :
      (hp : HorizontalPortrait) (s : Jobs) (r : Go (Unit {0}))
      → Emptied s r
      → Steady s (
          on_go r
            (λ e. ask (event "Warning" "FailedCleanupExternalAlgorithmJob") >> done (failed e))
            (λ u. remove_finalizer fin registry error_text hp >>= λ removed.
              on_go removed (λ e. done (failed e)) (λ o. done finished)))
  let_go hp s (ok u) h =
      and_then s _ _ (remove_finalizer-Steady hp s h.0 h.1)
        (λ t removed l. on_go-Steady t removed _ _ l (λ e. l) (λ o. l))
  let_go hp s (err e) h = ((h, tt), λ r t m. kept s t h m)
  let_go hp s panic h = h

  reconcile_deleted-Steady :
      (hp : HorizontalPortrait) (s : Jobs)
      → key_of hp ≡ request
      → Tracked s
      → Steady s (reconcile_deleted fin registry error_text hp)
  unfolding reconcile_deleted
  reconcile_deleted-Steady hp s k h =
      if-Keeps (jobs_world fin request) Kept s (fin.contains hp.meta) _ _
        (λ there.
          Keeps->>= (jobs_world fin request) Emptied Kept s _ _
            (cleanup_last-Emptied fin registry request hp s k h) (λ t r c. let_go hp t r c))
        (λ missing. h)

  reconcile_found-Steady :
      (hp : HorizontalPortrait) (s : Jobs)
      → key_of hp ≡ request
      → Tracked s
      → Steady s (reconcile_found fin registry error_text hp)
  unfolding reconcile_found
  reconcile_found-Steady hp s k h =
      if-Keeps (jobs_world fin request) Kept s (is_zero_ptr hp.meta.deletion_timestamp) _ _
        (λ live.
          Keeps->>= (jobs_world fin request) Found Kept s _ _ (ensure_finalizer-Found hp s k h)
            (λ t r c.
              on_go-Keeps (jobs_world fin request) Kept t r _ _ (λ e _. c.0)
                (λ o e. reconcile_live-Steady o t (subst (HasKey request) e c.1) c.0) (λ _. c.0)))
        (λ dead. reconcile_deleted-Steady hp s k h)

  -- Every job is of the type seen last, before and after each call of a reconciliation of the
  -- portrait, if this is so at its start, the API server answers with the object asked for, and job
  -- controllers make and remove jobs of their own type only. Moreover a type is only seen anew
  -- when no job of another type is left, and as long as a job is left the finalizer is not
  -- taken out: an object that has it is patched only when no job exists.
  pub reconcile-Tracked :
      (s : Jobs)
      → Tracked s
      → Keeps (jobs_world fin request) Kept s (reconcile fin registry error_text request)
  unfolding reconcile
  reconcile-Tracked s h = (
    (h, tt),
    λ r t m.
        let l = kept s t h m.0 in
        on_found-Keeps (jobs_world fin request) Kept t r _ _ _ (λ _. l) (λ e _. l)
          (λ o e. reconcile_found-Steady o t (subst (HasKey request) e m.1) l) (λ _. l),
  )
