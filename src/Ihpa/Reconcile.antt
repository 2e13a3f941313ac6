-- ===== src/Ihpa/Reconcile.antt =====
-- Reconcile of the IHPA controller. An object that a write replaces is passed on; `original` is the
-- status that the last write of the status left. Logs are left out, and so are the messages of
-- events. The text of an error (`err.Error()`) is a parameter.
use kapacity.Common.{
  String, List, Option, none, some, if◌then◌else◌, string_eq, discrete_eq, Eq, Go, ok, err,
}
use kapacity.Common.Int.{ℤ, pos, eqb_ℤ}
use kapacity.Common.Prog.{
  on_go, on_found, Prog, done, ◌>>=◌, ◌>>◌, ask, Outcome, requeue_after, failed,
}
use kapacity.Api.Meta.{Condition, set_condition_in_list}
use kapacity.Api.ReplicaProfile.{ReplicaProfile}
use kapacity.Api.Ihpa.{
  Ihpa, IhpaStatus, IhpaStatus-discrete, HorizontalPortraitValue, HorizontalPortraitValue-discrete,
}
use kapacity.Ihpa.Gray.{ReplicaCap, none_cap, min_cap, max_cap, is_ihpa_gray_active}
use kapacity.Ihpa.Calls.{Code, update_ihpa_status, get_rp, event, clock}
use kapacity.Ihpa.Portrait.{key_of}

-- apierrors.IsNotFound, which is no error to the callers of Get.
abbrev pub get_replica_profile : Ihpa → Code (Go (Option ReplicaProfile))
get_replica_profile ihpa = do
  rp ← ask (get_rp (key_of ihpa))
  on_found rp (done (ok none)) (λ e. done (err e)) (λ o. done (ok (some o)))

abbrev pub with_conditions : Ihpa → List Condition → Ihpa
with_conditions ihpa cs = record ihpa { status = record ihpa.status { conditions = cs } }

unfoldable pub set_ihpa_condition : Ihpa → (type status reason message : String) → Code Ihpa
set_ihpa_condition ihpa type status reason message = do
  now ← ask clock
  done (
      with_conditions ihpa (
        set_condition_in_list now ihpa.status.conditions type status ihpa.meta.generation reason
          message))

abbrev pub status_eq : Eq IhpaStatus
status_eq = discrete_eq IhpaStatus-discrete

-- The object after it: its status is the new original.
unfoldable pub update_status_if_needed : Ihpa → IhpaStatus → Code (Go Ihpa)
update_status_if_needed ihpa original =
    if status_eq.beq original ihpa.status then done (ok ihpa) else ask (update_ihpa_status ihpa)

unfoldable pub error_out : Ihpa → IhpaStatus → (reason message : String) → Code (Unit {0})
error_out ihpa original reason message = do
  ask (event "Warning" reason)
  changed ← set_ihpa_condition ihpa "ScalingActive" "False" reason message
  updated ← update_status_if_needed changed original
  on_go updated (λ e. done tt) (λ o. done tt)

-- The end of a reconciliation: the condition is set and the status written.
unfoldable pub finish : Ihpa → IhpaStatus → (status reason message : String) → ℤ → Code Outcome
finish ihpa original status reason message delay = do
  changed ← set_ihpa_condition ihpa "ScalingActive" status reason message
  updated ← update_status_if_needed changed original
  on_go updated (λ e. done (failed e)) (λ o. done (requeue_after delay))

abbrev pub finish_active : Ihpa → IhpaStatus → ℤ → Code Outcome
finish_active ihpa original delay =
    finish ihpa original "True" "SucceededAutoscaling" "the autoscaling process is functional" delay

abbrev pub finish_paused : Ihpa → IhpaStatus → Code Outcome
finish_paused ihpa original =
    finish ihpa original "False" "ScalingPaused" "scaling is paused" (pos 0)

-- The condition that tells what the bounds of the spec did.
abbrev pub limited_condition : Ihpa → ReplicaCap → Code Ihpa
limited_condition ihpa none_cap =
    set_ihpa_condition ihpa "ScalingLimited" "False" "DesiredWithinRange"
      "the desired replica count of current portrait value is within the acceptable range"
limited_condition ihpa min_cap =
    set_ihpa_condition ihpa "ScalingLimited" "True" "TooFewReplicas"
      "the desired replica count of current portrait value is less than the minimum replica count"
limited_condition ihpa max_cap =
    set_ihpa_condition ihpa "ScalingLimited" "True" "TooManyReplicas"
      "the desired replica count of current portrait value is more than the maximum replica count"

abbrev pub progress_condition : Ihpa → ReplicaProfile → Code Ihpa
progress_condition ihpa rp = elim ihpa.status.current_portrait_value [
  | none ↦ Prog.crash
  | some v ↦
      if eqb_ℤ v.replicas rp.spec.online_replicas
      then set_ihpa_condition ihpa "GrayProgressing" "False" "ReplicasMatchPortrait"
          "online replica count matches replica count of current portrait value"
      else set_ihpa_condition ihpa "GrayProgressing" "True" "ReplicasNotMatchPortrait"
          "online replica count does not match replica count of current portrait value"
]

abbrev pub value_eq : Eq (Option HorizontalPortraitValue)
value_eq = discrete_eq (hlevel HorizontalPortraitValue-discrete)

abbrev or_else {ℓ} : {A : Type ℓ} → Option A → Option A → Option A
or_else none b = b
or_else (some a) b = some a

-- The new current value; the one before it, if there is any, becomes the previous one.
unfoldable pub take_value : Ihpa → HorizontalPortraitValue → Ihpa
take_value ihpa v = record ihpa {
  status = record ihpa.status {
    previous_portrait_value =
        or_else ihpa.status.current_portrait_value ihpa.status.previous_portrait_value;
    current_portrait_value = some v;
  };
}

-- A gray change that starts.
unfoldable pub start_gray : Ihpa → Code Ihpa
start_gray ihpa =
    if is_ihpa_gray_active ihpa
    then (do
      now ← ask clock
      done (record ihpa {
        status = record ihpa.status {
          gray = some (record { gray_percent = pos 0; last_update_time = now });
        };
      }))
    else done ihpa

-- The object, with the status that it was last written with.
unfoldable pub store_value :
    Ihpa → IhpaStatus → HorizontalPortraitValue → Code (Go (Ihpa × IhpaStatus))
store_value ihpa original v =
    if value_eq.beq ihpa.status.current_portrait_value (some v)
    then done (ok (ihpa, original))
    else (do
      changed ← start_gray (take_value ihpa v)
      updated ← update_status_if_needed changed original
      on_go updated (λ e. done (err e)) (λ o. done (ok (o, o.status))))
