-- ===== src/Hp/Handover.antt =====
-- The functions of horizontalportrait_controller.go on external jobs, in the world of the jobs of one
-- portrait.
use kapacity.Common.{
  true, String, [], ◌∷◌, Option, none, some, inl, inr, ◌⊎◌, Go, ok, err, panic, ◌≡◌, sym, subst, ap,
  ◌∙◌, ◌==◌, string_eq, wrap_err,
}
use kapacity.Common.Prog.{on_go, then_go, pure_go, ask, done, ◌>>◌}
use kapacity.Common.World.{Keeps, Keeps->>=, Keeps-weaken, if-Keeps}
use kapacity.Util.Finalizer.{Finalizers}
use kapacity.Api.Meta.{NamespacedName}
use kapacity.Api.Algorithm.{ExternalJobPortraitAlgorithm, PortraitAlgorithmJob}
use kapacity.Api.HorizontalPortrait.{HorizontalPortrait}
use kapacity.Hp.Calls.{Code, Registry, delete_job_type, cleanup_job}
use kapacity.Hp.Job.{
  key_of, cleanup_external_algorithm_job, cleanup_last_external_algorithm_job, cleanup_seen,
  cleanup_previous, start_job, replace_job, reconcile_external_algorithm_job,
}
use kapacity.Hp.Tracked.{Jobs, Tracked, Idle, Moves, jobs_world, Emptied, kept}

none_seen : (s : Jobs) → Tracked s → s.seen ≡ none → Idle s
none_seen s h e u runs = cc (h u runs)

module _ (fin : Finalizers) (registry : Registry) (request : NamespacedName) where
  abbrev Good : {A : Type 0} → (Jobs → A → Type 0) → Jobs → Code A → Type 0
  Good post s m = Keeps (jobs_world fin request) post s m

  abbrev Cleaned : (type : String) → Jobs → Go (Unit {0}) → Type 0
  Cleaned type t r = Emptied t r × (t.seen ≡ some type)

  same_seen :
      (s t : Jobs)
      → Tracked s
      → t.seen ≡ s.seen
      → ((u : String) → t.runs u ≡ true → s.runs u ≡ true)
      → Tracked t
  same_seen s t h e k u runs = e ∙ h u (k u runs)

  -- The reply of a clean up, passed on.
  cleaned :
      (type format : String) (hp : HorizontalPortrait) (s t : Jobs) (r : Go (Unit {0}))
      → Tracked s
      → s.seen ≡ some type
      → Moves s (cleanup_job type hp) r t
      → Good (Cleaned type) t (pure_go (wrap_err format (type ∷ []) r))
  cleaned type format hp s t (ok x) h e m = (
    (
      same_seen s t h m.0 (λ u runs. (m.1 u runs).0),
      λ u runs. let before = m.1 u runs in let known = h u before.0 in before.1 cc,
    ),
    m.0 ∙ e,
  )
  cleaned type format hp s t (err d) h e m = (same_seen s t h m.0 m.1, m.0 ∙ e)
  cleaned type format hp s t panic h e m = same_seen s t h m.0 m.1

  cleanup_external_algorithm_job-Cleaned :
      (hp : HorizontalPortrait) (type : String) (s : Jobs)
      → Tracked s
      → s.seen ≡ some type
      → Good (Cleaned type) s (cleanup_external_algorithm_job registry hp type)
  unfolding cleanup_external_algorithm_job
  cleanup_external_algorithm_job-Cleaned hp type s h e =
      if-Keeps (jobs_world fin request) (Cleaned type) s (registry.has_job_controller type) _ _
        (λ known. (
          (h, e),
          λ r t m.
              cleaned type "failed to clean up external algorithm job of type %q" hp s t r h e m,
        ))
        (λ unknown. (h, e))

  forgotten : (s t : Jobs) → Idle s → t ≡ record s { seen = none } → Tracked t × Idle t
  forgotten s t h e = subst (λ q. Tracked q × Idle q) (sym e) ((λ u runs. absurd (h u runs)), h)

  forget :
      (type : String) (hp : HorizontalPortrait) (r : Go (Unit {0})) (s : Jobs)
      → key_of hp ≡ request
      → Cleaned type s r
      → Good Emptied s
          (on_go r (λ e. done (err e)) (λ u. ask (delete_job_type (key_of hp)) >> done (ok tt)))
  forget type hp (ok u) s k h = ((h.0.0, (k, h.0.1)), λ r t m. forgotten s t h.0.1 m)
  forget type hp (err e) s k h = h.0
  forget type hp panic s k h = h.0

  seen_case :
      (hp : HorizontalPortrait) (r : Option String) (s : Jobs)
      → key_of hp ≡ request
      → Tracked s
      → r ≡ s.seen
      → Good Emptied s (cleanup_seen registry hp r)
  seen_case hp none s k h e = (h, none_seen s h (sym e))
  seen_case hp (some type) s k h e =
      Keeps->>= (jobs_world fin request) (Cleaned type) Emptied s _ _
        (cleanup_external_algorithm_job-Cleaned hp type s h (sym e))
        (λ t r c. forget type hp r t k c)

  -- After it, a result without an error means that no job is left.
  pub cleanup_last-Emptied :
      (hp : HorizontalPortrait) (s : Jobs)
      → key_of hp ≡ request
      → Tracked s
      → Good Emptied s (cleanup_last_external_algorithm_job registry hp)
  unfolding cleanup_last_external_algorithm_job
  cleanup_last-Emptied hp s k h =
      ((h, k), λ r t m. seen_case hp r t k (kept s t h m.0) (m.1 ∙ ap (λ q. q.seen) (sym m.0)))

  abbrev Settled : Jobs → Go (Unit {0}) → Type 0
  Settled s r = Tracked s

  -- What cleanup_previous leaves: no job, or one of the type at hand.
  abbrev Ready : (type : String) → Jobs → Go (Unit {0}) → Type 0
  Ready type s (ok u) = Tracked s × (Idle s ⊎ (s.seen ≡ some type))
  Ready type s _ = Tracked s

  turned : (type old : String) (s : Jobs) (r : Go (Unit {0})) → Cleaned old s r → Ready type s r
  turned type old s (ok u) h = (h.0.0, inl h.0.1)
  turned type old s (err e) h = h.0
  turned type old s panic h = h.0

  cleanup_previous-Ready :
      (hp : HorizontalPortrait) (type : String) (r : Option String) (s : Jobs)
      → Tracked s
      → r ≡ s.seen
      → Good (Ready type) s (cleanup_previous registry hp type r)
  unfolding cleanup_previous
  cleanup_previous-Ready hp type none s h e = (h, inl (none_seen s h (sym e)))
  cleanup_previous-Ready hp type (some old) s h e =
      if-Keeps (jobs_world fin request) (Ready type) s (type == old) _ _
        (λ same. (h, inr (sym e ∙ ap some (sym ((string_eq.agrees type old).0 same)))))
        (λ other.
          Keeps-weaken (jobs_world fin request) (Cleaned old) (Ready type) s _ (turned type old)
            (cleanup_external_algorithm_job-Cleaned hp old s h (sym e)))

  ended :
      (format : String) (s : Jobs) (r : Go (Unit {0}))
      → Tracked s
      → Good Settled s (pure_go (wrap_err format [] r))
  ended format s (ok u) h = h
  ended format s (err e) h = h
  ended format s panic h = h

  stored :
      (type : String) (s : Jobs)
      → Tracked s
      → Idle s ⊎ (s.seen ≡ some type)
      → Tracked (record s { seen = some type })
  stored type s h (inl idle) u runs = absurd (idle u runs)
  stored type s h (inr e) u runs = sym e ∙ h u runs

  made :
      (type : String) (s t : Jobs)
      → Tracked s
      → s.seen ≡ some type
      → t.seen ≡ s.seen
      → ((u : String) → t.runs u ≡ true → (u ≡ type) ⊎ (s.runs u ≡ true))
      → Tracked t
  made type s t h e same k u runs = elim (k u runs) [
    | inl same_type ↦ same ∙ e ∙ ap some (sym same_type)
    | inr ran ↦ same ∙ h u ran
  ]

  start_job-Settled :
      (hp : HorizontalPortrait) (job : PortraitAlgorithmJob) (s : Jobs)
      → key_of hp ≡ request
      → Tracked s
      → Idle s ⊎ (s.seen ≡ some job.type)
      → Good Settled s (start_job registry hp job)
  unfolding start_job
  start_job-Settled hp job s k h free = (
    (h, (k, free)),
    λ r t m.
        let tracked = kept (record s { seen = some job.type }) t (stored job.type s h free) m in
        let seen = ap (λ q. q.seen) m in
        (
          (tracked, seen),
          λ v q n.
              ended "failed to update external algorithm job" q v
                (made job.type t q tracked seen n.0 n.1),
        ),
  )

  replace :
      (hp : HorizontalPortrait) (job : PortraitAlgorithmJob) (r : Go (Unit {0})) (s : Jobs)
      → key_of hp ≡ request
      → Ready job.type s r
      → Good Settled s (
          then_go
            (wrap_err "failed to clean up previous external algorithm job" [] r)
            (λ u. start_job registry hp job))
  replace hp job (ok u) s k h = start_job-Settled hp job s k h.0 h.1
  replace hp job (err e) s k h = h
  replace hp job panic s k h = h

  pub reconcile_job-Settled :
      (hp : HorizontalPortrait) (external : Option ExternalJobPortraitAlgorithm) (s : Jobs)
      → key_of hp ≡ request
      → Tracked s
      → Good Settled s (reconcile_external_algorithm_job registry hp external)
  unfolding reconcile_external_algorithm_job replace_job
  reconcile_job-Settled hp none s k h = h
  reconcile_job-Settled hp (some external) s k h =
      if-Keeps (jobs_world fin request) Settled s (registry.has_job_controller external.job.type) _
        _
        (λ known. (
          (h, k),
          λ r t m.
              Keeps->>= (jobs_world fin request) (Ready external.job.type) Settled t _ _
                (cleanup_previous-Ready hp external.job.type r t (kept s t h m.0)
                  (m.1 ∙ ap (λ q. q.seen) (sym m.0)))
                (λ q v c. replace hp external.job v q k c),
        ))
        (λ unknown. h)
