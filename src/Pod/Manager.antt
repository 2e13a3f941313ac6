-- ===== src/Pod/Manager.antt =====
-- pkg/pod/state.go: StateManager, which moves pods between the states until each state has the
-- replicas that are desired of it.
pub mod Select
pub mod Transfer
pub mod Infos
pub mod Pull
pub mod Push
pub mod Balance
pub mod Laws
pub mod Start
use kapacity.Common.{
  ℕ, ◌+◌, String, Bool, true, false, not, ◌&&◌, ◌||◌, List, [], ◌∷◌, ◌++◌, Option, none, some, map,
  reverse, if◌then◌else◌, string_eq, Go, ok, err, panic, ◌>>=◌, wrap_err, length,
}
use kapacity.Common.Int.{ℤ, pos, ◌+ℤ◌, ◌-ℤ◌, ltb_ℤ, leb_ℤ, eqb_ℤ}
use kapacity.Common.Sets.{insert, delete, union}
use kapacity.Common.Dict.{find, put}
use kapacity.Common.Range.{MapRange}
use kapacity.Pod.Data.{Pod, PodState, online, cutoff, standby, deleted, state_text}
use kapacity.Pod.State.{ByState, at_state, set_at_state}
use kapacity.Pod.Sorter.{Sorter}

-- stateInfo, with its two sets of pod names.
pub record StateInfo : Type 0 where
  pub desired_replicas : ℤ
  pub current_pod_names : List String
  pub candidate_pod_names : List String

pub record StateManager : Type 0 where
  pub states_info : ByState StateInfo
  pub pod_name_map : List (String × Pod)

pub record StateChange : Type 0 where
  pub to_online : List (Option Pod)
  pub to_cutoff : List (Option Pod)
  pub to_standby : List (Option Pod)
  pub to_delete : List (Option Pod)

abbrev pub default_states_ordered : List PodState
default_states_ordered = online ∷ cutoff ∷ standby ∷ deleted ∷ []

-- The loop of NewStateManager over the pods of one state.
pub add_current : List Pod → StateInfo × List (String × Pod) → StateInfo × List (String × Pod)
add_current [] acc = acc
add_current (p ∷ pods) (info, names) =
    add_current pods
      (record info { current_pod_names = insert p.name info.current_pod_names }, put p.name p names)

pub new_info : ℤ → StateInfo
new_info n = record { desired_replicas = n; current_pod_names = []; candidate_pod_names = [] }

pub init_states : List PodState → ByState ℤ → ByState (List Pod) → StateManager → StateManager
unfolding add_current new_info
init_states [] desired pods sm = sm
init_states (s ∷ states) desired pods sm =
    let r = add_current (at_state pods s) (new_info (at_state desired s), sm.pod_name_map) in
    init_states states desired pods
      (record { states_info = set_at_state sm.states_info s r.0; pod_name_map = r.1 })

abbrev no_info : StateManager
no_info = record {
  states_info = record {
    of_online = new_info (pos 0);
    of_cutoff = new_info (pos 0);
    of_standby = new_info (pos 0);
    of_deleted = new_info (pos 0);
  };
  pod_name_map = [];
}

unfoldable pub new_state_manager : ByState ℤ → ByState (List Pod) → StateManager
unfolding init_states
new_state_manager desired pods = init_states default_states_ordered desired pods no_info

-- The loop over the sorted candidates, which stops when the target count is reached.
pub collect : ℤ → List (Option Pod) → List String → Go (List String)
collect target [] result = ok result
collect target (none ∷ pods) result = panic
collect target (some p ∷ pods) result =
    let result' = insert p.name result in
    if eqb_ℤ (pos (length result')) target then ok result' else collect target pods result'

-- The transfer of selected pods up, from a later state's current pods to the candidates.
pub pull_pods : List String → StateInfo → StateInfo → StateInfo × StateInfo
pull_pods [] info neighbor = (info, neighbor)
pull_pods (n ∷ names) info neighbor =
    pull_pods names (record info { candidate_pod_names = insert n info.candidate_pod_names })
      (record neighbor { current_pod_names = delete n neighbor.current_pod_names })

-- The transfer of selected pods down, to the candidates of the next state.
pub push_pods : List String → StateInfo → StateInfo → StateInfo × StateInfo
push_pods [] info neighbor = (info, neighbor)
push_pods (n ∷ names) info neighbor =
    push_pods names
      (record info {
        current_pod_names = delete n info.current_pod_names;
        candidate_pod_names = delete n info.candidate_pod_names;
      })
      (record neighbor { candidate_pod_names = insert n neighbor.candidate_pod_names })

-- The two infos that a transfer changed, put back. (The program changes them through pointers; the
-- two states differ.)
abbrev put_infos : StateManager → PodState → PodState → StateInfo × StateInfo → StateManager
put_infos sm s n (info, neighbor) = record sm {
  states_info = set_at_state (set_at_state sm.states_info s info) n neighbor;
}

module _ (order : MapRange) (sorter : Sorter) where
  open order use {range}
  open sorter use {sort}

  unfoldable pub make_pod_list_by_names : StateManager → List String → List (Option Pod)
  make_pod_list_by_names sm names = map (λ n. find n sm.pod_name_map) (range names)

  unfoldable pub select_pods_to_transfer : StateManager → ℤ → Bool → List String → Go (List String)
  unfolding collect
  select_pods_to_transfer sm target scale_up candidates =
      if leb_ℤ target (pos 0) || eqb_ℤ (pos (length candidates)) (pos 0) then ok [] else do
        sorted ←
            wrap_err "failed to sort candidate pods" []
              (sort (make_pod_list_by_names sm candidates))
        collect target (if scale_up then reverse sorted else sorted) []

  -- The loop over the subsequent states, which leaves out the last one.
  pub pull : PodState → List PodState → ℤ → StateManager → Go StateManager
  pull s [] diff sm = ok sm
  pull s (n ∷ []) diff sm = ok sm
  pull s (n ∷ next ∷ rest) diff sm =
      if ltb_ℤ diff (pos 0)
      then (do
        let neighbor = at_state sm.states_info n
        pods ←
            wrap_err "failed to select pods to transfer from %s to %s"
              (state_text n ∷ state_text s ∷ [])
              (select_pods_to_transfer sm (pos 0 -ℤ diff) true neighbor.current_pod_names)
        pull s (next ∷ rest) (diff +ℤ pos (length pods))
            (put_infos sm s n (pull_pods (range pods) (at_state sm.states_info s) neighbor)))
      else ok sm

  pub push : PodState → List PodState → ℤ → StateManager → Go StateManager
  push s [] diff sm = ok sm
  push s (n ∷ rest) diff sm = do
    let info = at_state sm.states_info s
    pods ←
        wrap_err "failed to select pods to transfer from %s to %s"
          (state_text s ∷ state_text n ∷ [])
          (select_pods_to_transfer sm diff false
            (union info.current_pod_names info.candidate_pod_names))
    ok (put_infos sm s n (push_pods (range pods) info (at_state sm.states_info n)))

  -- One round of the loop over the states: the state and those behind it.
  pub balance : PodState → List PodState → StateManager → Go StateManager
  balance s rest sm =
      let info = at_state sm.states_info s in
      let diff =
        pos (length info.current_pod_names + length info.candidate_pod_names)
        -ℤ info.desired_replicas in
      if ltb_ℤ diff (pos 0)
      then pull s rest diff sm
      else if ltb_ℤ (pos 0) diff
      then push s rest diff sm
      else ok sm

  pub rounds : List PodState → StateManager → Go StateManager
  rounds [] sm = ok sm
  rounds (s ∷ rest) sm = balance s rest sm >>= rounds rest

  pub change_of : StateManager → StateChange
  change_of sm = record {
    to_online = make_pod_list_by_names sm sm.states_info.of_online.candidate_pod_names;
    to_cutoff = make_pod_list_by_names sm sm.states_info.of_cutoff.candidate_pod_names;
    to_standby = make_pod_list_by_names sm sm.states_info.of_standby.candidate_pod_names;
    to_delete = make_pod_list_by_names sm sm.states_info.of_deleted.candidate_pod_names;
  }

  -- CalculateStateChange. It changes the sets of the manager, which it returns beside the result.
  unfoldable pub calculate_state_change : StateManager → Go (StateChange × StateManager)
  calculate_state_change sm = do sm' ← rounds default_states_ordered sm; ok (change_of sm', sm')
