-- ===== src/CronJob/Cleanup.antt =====
-- CleanupJob of cronjob.go against a cluster.
use kapacity.Common.{
  String, List, none, some, Go, ok, err, panic, not_found, foreign, errorf, wrapf, ◌≡◌, refl, subst,
  ◌∙◌, wrap_err,
}
use kapacity.Common.Prog.{pure_go}
use kapacity.Common.World.{World, Reads, Writes, Keeps, on_found-Keeps}
use kapacity.Api.Meta.{NamespacedName}
use kapacity.Api.HorizontalPortrait.{HorizontalPortrait}
use kapacity.CronJob.{
  Call, Reply, CronJobHorizontal, get_cron_job, delete_cron_job, build_cron_job_namespaced_name,
}
use kapacity.CronJob.Cluster.{Cluster, Moves}
use kapacity.CronJob.Update.{ignore_not_found, cleanup_job}

-- The calls of a clean up.
abbrev pub CleansUp : NamespacedName → Cluster → Call → Type 0
CleansUp n s (get_cron_job m) = m ≡ n
CleansUp n s (delete_cron_job j) = s ≡ some j
CleansUp n s _ = ⊥

abbrev pub cleaning : NamespacedName → World Call Reply Cluster
cleaning n = record { moves = Moves (λ j. j); permits = CleansUp n; crashes = λ s. ⊥ }

abbrev pub Gone : Cluster → Go (Unit {0}) → Type 0
Gone s (ok u) = s ≡ none
Gone s _ = Unit

deleted :
    (n : NamespacedName) (old q : Cluster) (args : List String) (r : Go (Unit {0}))
    → Writes old none r q
    → Keeps
        (cleaning n)
        Gone
        q
        (pure_go (wrap_err "failed to delete CronJob %q" args (ignore_not_found r)))
deleted n old q args (ok u) m = m
deleted n old q args (err not_found) m = m
deleted n old q args (err (foreign x)) m = tt
deleted n old q args (err (errorf x l)) m = tt
deleted n old q args (err (wrapf x l e)) m = tt
deleted n old q args panic m = m

-- CleanupJob reads the CronJob of the portrait's name and deletes the one that it read, and makes no
-- other call. If it returns no error, no CronJob of the name is left; that it was gone already, before
-- the read or between the read and the deletion, is no error.
pub cleanup_job-Gone :
    (h : CronJobHorizontal) (hp : HorizontalPortrait) (s : Cluster)
    → Keeps (cleaning (build_cron_job_namespaced_name h hp)) Gone s (cleanup_job h hp)
unfolding cleanup_job
cleanup_job-Gone h hp s =
    let n = build_cron_job_namespaced_name h hp in
    (
      refl,
      λ r q m.
          on_found-Keeps (cleaning n) Gone q r _ _ _ (λ e. m.0 ∙ subst (Reads s) e m.1) (λ e d. tt)
            (λ j e. (m.0 ∙ subst (Reads s) e m.1, λ v p w. deleted n q p _ v w))
            (λ e. subst (Reads s) e m.1),
    )
