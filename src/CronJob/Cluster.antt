-- ===== src/CronJob/Cluster.antt =====
-- UpdateJob against a cluster that holds the CronJob of the name, or none.
use kapacity.Common.{
  Bool, true, false, String, List, [], ◌∷◌, Option, none, some, Go, ok, err, panic, ◌≡◌, refl, sym,
  subst, ◌∙◌, ap, wrap_err,
}
use kapacity.Common.Dict.{GoMap, entries, is_map_value_changed}
use kapacity.Common.Dict.Copy.{
  Apart, is_map_value_changed-copy_map_values, is_map_value_changed_self,
}
use kapacity.Common.Prog.{pure_go}
use kapacity.Common.World.{World, Reads, Writes, Keeps, if-Keeps, on_found-Keeps}
use kapacity.Api.Meta.{NamespacedName}
use kapacity.Api.Algorithm.{CronJobSpec, CronJobTemplateSpec, PortraitAlgorithmJob}
use kapacity.Api.HorizontalPortrait.{HorizontalPortrait}
use kapacity.CronJob.{
  CronJob, Call, Reply, CronJobHorizontal, get_cron_job, create_cron_job, patch_cron_job,
  delete_cron_job, build_cron_job_namespaced_name, merge_map, patched_cron_job,
}
use kapacity.CronJob.Update.{
  new_cron_job, in_step, bring_in_step, create_job, update_to, defaulted, update_job,
}

abbrev pub Cluster : Type 0
Cluster = Option CronJob

-- The server admits an object with the defaults of its own filled in.
abbrev pub Moves : (admit : CronJob → CronJob) → Cluster → (c : Call) → Reply c → Cluster → Type 0
Moves admit s (get_cron_job n) r t = (t ≡ s) × Reads s r
Moves admit s (create_cron_job j) r t = Writes s (some (admit j)) r t
Moves admit s (patch_cron_job o p) r t = Writes s (some (admit p)) r t
Moves admit s (delete_cron_job j) r t = Writes s none r t

-- The calls of an update of the CronJob of a name: it is made if there is none, and changed if
-- it is there.
abbrev pub Updates : NamespacedName → Cluster → Call → Type 0
Updates n s (get_cron_job m) = m ≡ n
Updates n s (create_cron_job j) = (j.key ≡ n) × (s ≡ none)
Updates n s (patch_cron_job o p) = (s ≡ some o) × (p.key ≡ o.key)
Updates n s (delete_cron_job j) = ⊥

abbrev pub updating : (admit : CronJob → CronJob) → NamespacedName → World Call Reply Cluster
updating admit n = record { moves = Moves admit; permits = Updates n; crashes = λ s. ⊥ }

abbrev pub OnlyReads : Cluster → Call → Type 0
OnlyReads s (get_cron_job m) = Unit
OnlyReads s _ = ⊥

abbrev pub resting : (admit : CronJob → CronJob) → World Call Reply Cluster
resting admit = record { moves = Moves admit; permits = OnlyReads; crashes = λ s. ⊥ }

merged :
    (old new : GoMap String)
    → Apart (entries new)
    → (m : GoMap String) × (merge_map old new ≡ ok m) × (is_map_value_changed m new ≡ false)
unfolding merge_map is_map_value_changed
merged old none d = (old, refl, refl)
merged old (some []) d = (old, refl, refl)
merged old (some (e ∷ es)) d = is_map_value_changed-copy_map_values (some (e ∷ es)) (entries old) d

module _ (same_spec : CronJobSpec → CronJobSpec → Bool)
    (same_spec_self : (x : CronJobSpec) → same_spec x x ≡ true) (admit : CronJob → CronJob) where
  abbrev InStep : CronJobTemplateSpec → Cluster → Type 0
  InStep t none = ⊥
  InStep t (some j) = in_step same_spec j t ≡ true

  new_cron_job-InStep :
      (n : NamespacedName) (t : CronJobTemplateSpec)
      → Apart (entries t.labels)
      → Apart (entries t.annotations)
      → in_step same_spec (new_cron_job n t) t ≡ true
  unfolding in_step
  new_cron_job-InStep n t l a =
      rw
        (
          same_spec_self t.spec,
          is_map_value_changed_self t.labels l,
          is_map_value_changed_self t.annotations a,
        )
        refl

  patched-InStep :
      (j : CronJob) (t : CronJobTemplateSpec)
      → Apart (entries t.labels)
      → Apart (entries t.annotations)
      → (new : CronJob) × (patched_cron_job j t ≡ ok new)
        × (new.key ≡ j.key)
        × (new.spec ≡ t.spec)
        × (in_step same_spec new t ≡ true)
  unfolding in_step patched_cron_job
  patched-InStep j t l a =
      let labels = merged j.labels t.labels l in
      let annotations = merged j.annotations t.annotations a in
      (
        record j { labels = labels.0; annotations = annotations.0; spec = t.spec },
        rw (labels.1, annotations.1) refl,
        refl,
        refl,
        rw (same_spec_self t.spec, labels.2, annotations.2) refl,
      )

  rest_in_step :
      (i : CronJob) (t : CronJobTemplateSpec) (s q : Cluster)
      → in_step same_spec i t ≡ true
      → q ≡ s
      → Keeps (resting admit) (λ p v. p ≡ s) q (bring_in_step same_spec i t)
  unfolding bring_in_step
  rest_in_step i t s q h e = rw h e

  -- An update from a state in step.
  rests :
      (n : NamespacedName) (t : CronJobTemplateSpec) (j : CronJob)
      → in_step same_spec j t ≡ true
      → Keeps (resting admit) (λ q r. q ≡ some j) (some j) (update_to same_spec n t)
  unfolding update_to
  rests n t j h = (
    tt,
    λ r q m.
        on_found-Keeps (resting admit) (λ p v. p ≡ some j) q r _ _ _
          (λ e. cc (subst (Reads (some j)) e m.1)) (λ e d. m.0)
          (λ i e.
            rest_in_step i t (some j) q (subst (InStep t) (subst (Reads (some j)) e m.1) h) m.0)
          (λ e. subst (Reads (some j)) e m.1),
  )

  -- What a result without an error promises.
  abbrev pub Converged : NamespacedName → CronJobTemplateSpec → Cluster → Go (Unit {0}) → Type 0
  Converged n t q (ok u) =
      (j : CronJob) × (q ≡ some j)
      × (in_step same_spec j t ≡ true)
      × Keeps (resting admit) (λ p r. p ≡ q) q (update_to same_spec n t)
  Converged n t q _ = Unit

  converges :
      (n : NamespacedName) (t : CronJobTemplateSpec) (j : CronJob) (q : Cluster)
      → in_step same_spec j t ≡ true
      → q ≡ some j
      → Converged n t q (ok tt)
  converges n t j q h e = (
    j,
    e,
    h,
    subst (λ c. Keeps (resting admit) (λ p r. p ≡ c) c (update_to same_spec n t)) (sym e)
        (rests n t j h),
  )

  written :
      (n : NamespacedName) (t : CronJobTemplateSpec) (j : CronJob) (old q : Cluster)
      → (format : String) (args : List String) (r : Go (Unit {0})) → in_step same_spec j t ≡ true
      → admit j ≡ j
      → Writes old (some (admit j)) r q
      → Keeps (updating admit n) (Converged n t) q (pure_go (wrap_err format args r))
  written n t j old q format args (ok u) h a m = converges n t j q h (m ∙ ap some a)
  written n t j old q format args (err e) h a m = tt
  written n t j old q format args panic h a m = m

  module _ (n : NamespacedName) (t : CronJobTemplateSpec) (labels : Apart (entries t.labels))
      (annotations : Apart (entries t.annotations))
      (complete : (j : CronJob) → j.spec ≡ t.spec → admit j ≡ j) where
    create_job-Converged :
        (q : Cluster)
        → q ≡ none
        → Keeps (updating admit n) (Converged n t) q (create_job same_spec n t)
    unfolding create_job
    create_job-Converged q e = (
      (refl, e),
      λ r p m.
          written n t (new_cron_job n t) q p _ _ r (new_cron_job-InStep n t labels annotations)
            (complete (new_cron_job n t) refl) m,
    )

    bring_in_step-Converged :
        (j : CronJob) (q : Cluster)
        → q ≡ some j
        → Keeps (updating admit n) (Converged n t) q (bring_in_step same_spec j t)
    unfolding bring_in_step
    bring_in_step-Converged j q e =
        if-Keeps (updating admit n) (Converged n t) q (in_step same_spec j t) _ _
          (λ same. converges n t j q same e)
          (λ changed.
            let patched = patched-InStep j t labels annotations in
            rw patched.1 (
              (e, patched.2),
              λ r p m. written n t patched.0 q p _ _ r patched.4 (complete patched.0 patched.3) m,
            ))

    update_to-Converged :
        (s : Cluster) → Keeps (updating admit n) (Converged n t) s (update_to same_spec n t)
    unfolding update_to
    update_to-Converged s = (
      refl,
      λ r q m.
          on_found-Keeps (updating admit n) (Converged n t) q r _ _ _
            (λ e. create_job-Converged q (m.0 ∙ subst (Reads s) e m.1)) (λ e d. tt)
            (λ j e. bring_in_step-Converged j q (m.0 ∙ subst (Reads s) e m.1))
            (λ e. subst (Reads s) e m.1),
    )

  pub update_job-Converged :
      (h : CronJobHorizontal) (hp : HorizontalPortrait) (cfg : PortraitAlgorithmJob)
      → (t : CronJobTemplateSpec) (s : Cluster) → cfg.cron_job ≡ some t
      → Apart (entries t.labels)
      → Apart (entries t.annotations)
      → ((j : CronJob) → j.spec ≡ (defaulted same_spec h hp t).spec → admit j ≡ j)
      → Keeps
          (updating admit (build_cron_job_namespaced_name h hp))
          (Converged (build_cron_job_namespaced_name h hp) (defaulted same_spec h hp t))
          s
          (update_job same_spec h hp cfg)
  unfolding update_job
  update_job-Converged h hp cfg t s e labels annotations complete = rw e (
      update_to-Converged (build_cron_job_namespaced_name h hp) (defaulted same_spec h hp t) labels
        annotations complete s)
