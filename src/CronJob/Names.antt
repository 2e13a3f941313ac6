-- ===== src/CronJob/Names.antt =====
-- buildCronJobNamespacedName of cronjob.go.
use Prim.Native.String.{◌++◌}
use text.Mathlib.TextLemmas.{append_assoc}
use kapacity.Common.{String, ◌≡◌, sym, ap, ◌∙◌}
use kapacity.Api.Meta.{NamespacedName}
use kapacity.Api.HorizontalPortrait.{HorizontalPortrait}
use kapacity.CronJob.{CronJobHorizontal, build_cron_job_namespaced_name}

name_clash : (a b c : String) → (a ++ "-" ++ b) ++ "-" ++ c ≡ a ++ "-" ++ (b ++ "-" ++ c)
name_clash a b c = cc (append_assoc a ("-" ++ b) ("-" ++ c), append_assoc "-" b ("-" ++ c))

abbrev named : String → String → NamespacedName
named namespace name = record { namespace = namespace; name = name }

-- The name of the CronJob does not tell the portrait: for a portrait c in the namespace a-b, and
-- a portrait b-c in the namespace a, it is the same.
pub build_cron_job_namespaced_name_clash :
    (h : CronJobHorizontal) (left right : HorizontalPortrait) (a b c : String)
    → left.meta.namespace ≡ a ++ "-" ++ b
    → left.meta.name ≡ c
    → right.meta.namespace ≡ a
    → right.meta.name ≡ b ++ "-" ++ c
    → build_cron_job_namespaced_name h left ≡ build_cron_job_namespaced_name h right
unfolding build_cron_job_namespaced_name
build_cron_job_namespaced_name_clash h left right a b c ln lm rn rm = ap (named h.namespace) (
    ap (λ x. x ++ "-" ++ left.meta.name) ln
    ∙ ap (λ x. (a ++ "-" ++ b) ++ "-" ++ x) lm
    ∙ name_clash a b c
    ∙ sym (ap (λ x. x ++ "-" ++ right.meta.name) rn ∙ ap (λ x. a ++ "-" ++ x) rm))
