-- ===== src/Pod/State.antt =====
-- pkg/pod/state.go: the state of a pod, which its label holds, and pods classified by state.
pub mod Laws
use kapacity.Common.{
  ℕ, ◌+◌, String, ◌≡◌, refl, Bool, true, false, not, ◌&&◌, ◌||◌, List, [], ◌∷◌, ◌++◌, Option, none,
  some, if◌then◌else◌, ◌==◌, string_eq, arith, Go, ok, err, panic, ◌>>=◌,
}
use kapacity.Common.Dict.{str_iff, text_at, remove, assign, lookup}
use kapacity.Pod.Data.{Pod, PodState, online, cutoff, standby, deleted, state_text, label_state}
use kapacity.Pod.Util.{is_pod_running}

-- The `switch` on the label. An unknown text is taken for online.
unfoldable pub state_of_label : String → PodState
state_of_label l =
    if l == ""
    then online
    else if l == state_text cutoff
    then cutoff
    else if l == state_text standby
    then standby
    else online

unfoldable pub get_state : Pod → PodState
unfolding state_of_label
get_state p = state_of_label (text_at label_state p.labels)

-- `if pod.Labels == nil { pod.Labels = make(...) }`
abbrev made : {V : Type 0} → Option (List V) → Option (List V)
made none = some []
made (some m) = some m

set_label : Pod → String → Go Pod
set_label p l = do labels ← assign label_state l (made p.labels); ok (record p { labels = labels })

unfoldable pub set_state : Pod → PodState → Go Pod
unfolding set_label
set_state p online = ok (record p { labels = remove label_state p.labels })
set_state p s = set_label p (state_text s)

unfoldable pub state_changed : Pod → Pod → Bool
state_changed old new =
    let old_running = is_pod_running old in
    let new_running = is_pod_running new in
    if not old_running && not new_running
    then false
    else if (old_running && not new_running) || (not old_running && new_running)
    then true
    else not (text_at label_state old.labels == text_at label_state new.labels)

-- The pods of each state. The program's map has the three running states as its keys, and no pod
-- is classified as deleted.
pub record ByState (A : Type 0) : Type 0 where
  pub of_online : A
  pub of_cutoff : A
  pub of_standby : A
  pub of_deleted : A

abbrev pub at_state : {A : Type 0} → ByState A → PodState → A
at_state m online = m.of_online
at_state m cutoff = m.of_cutoff
at_state m standby = m.of_standby
at_state m deleted = m.of_deleted

abbrev pub set_at_state : {A : Type 0} → ByState A → PodState → A → ByState A
set_at_state m online a = record m { of_online = a }
set_at_state m cutoff a = record m { of_cutoff = a }
set_at_state m standby a = record m { of_standby = a }
set_at_state m deleted a = record m { of_deleted = a }

abbrev no_pods : ByState (List Pod)
no_pods = record { of_online = []; of_cutoff = []; of_standby = []; of_deleted = [] }

-- One round of the loop of FilterAndClassifyByRunningState.
classify_pod : Pod → ByState (List Pod) × ℕ → ByState (List Pod) × ℕ
unfolding get_state
classify_pod p (result, total) =
    if not (is_pod_running p)
    then (result, total)
    else let s = get_state p in (set_at_state result s (at_state result s ++ p ∷ []), total + 1)

classify_from : List Pod → ByState (List Pod) × ℕ → ByState (List Pod) × ℕ
unfolding classify_pod
classify_from [] acc = acc
classify_from (p ∷ pods) acc = classify_from pods (classify_pod p acc)

unfoldable pub filter_and_classify_by_running_state : List Pod → ByState (List Pod) × ℕ
unfolding classify_from
filter_and_classify_by_running_state pods = classify_from pods (no_pods, 0)
