-- ===== src/Pod/Manager/Push.antt =====
-- The scale-down step of CalculateStateChange.
use kapacity.Common.{
  ℕ, ◌+◌, ◌≤◌, min, String, true, false, List, ◌∷◌, ◌≡◌, sym, ◌∙◌, string_eq, arith,
}
use kapacity.Common.Int.{pos}
use kapacity.Common.Sets.{union, union-Distinct, length-union, has-union}
use kapacity.Common.Range.{MapRange}
use kapacity.Common.Perms.{length-perm, has-perm, Distinct-perm, every}
use mathlib.Core.List.Perm
use kapacity.Pod.Data.{PodState}
use kapacity.Pod.Sorter.{Sorter, IsSorter}
use kapacity.Pod.Manager.{StateManager, put_infos, push_pods, push}
use kapacity.Pod.Manager.Select.{
  known, Selected, Ensures, Ensures-bind, Ensures-wrap_err, select_pods_lem,
}
use kapacity.Pod.Manager.Transfer.{places, size, either, push_pods-Pushed}
use kapacity.Pod.Manager.Infos.{
  same, info_at, Inv, Kept, put_infos-Kept, put_infos-first, put_infos-second, put_infos-other,
  sum-pair_le, sum-one_le, every_of_has, sum,
}

-- All pods of a state, as selectPodsToTransfer is given them.
abbrev pub all_names : StateManager → PodState → List String
all_names sm s = union (info_at sm s).current_pod_names (info_at sm s).candidate_pod_names

either_one : (a : String) (sm : StateManager) (s : PodState) → Inv sm → places a (info_at sm s) ≤ 1
either_one a sm s v = omega (arith, v.once a, sum-one_le (places a) sm s)

all_names-known :
    (sm : StateManager) (s : PodState) → Inv sm → every (known sm) (all_names sm s) ≡ true
all_names-known sm s v = every_of_has (known sm) (all_names sm s) λ a h. v.all_known a (
    placed a
      (sym (has-union a (info_at sm s).current_pod_names (info_at sm s).candidate_pod_names) ∙ h)
      (v.once a) (sum-one_le (places a) sm s))
  where
    placed :
        (a : String)
        → either a (info_at sm s) ≡ true
        → sum (places a) sm ≤ 1
        → places a (info_at sm s) ≤ sum (places a) sm
        → sum (places a) sm ≡ 1
    placed a h o l = ground arith

module _ (order : MapRange) {sorter : Sorter} (law : IsSorter sorter) where
  open order use {range, range_perm}

  pub record Pushes (s n : PodState) (surplus : ℕ) (sm sm' : StateManager) : Type 0 where
    pub kept : Kept sm sm'
    pub size_after : size (info_at sm' s) + min surplus (size (info_at sm s)) ≡ size (info_at sm s)
    pub others : (t : PodState) → same t s ≡ false → same t n ≡ false → info_at sm' t ≡ info_at sm t
    pub same_current : (info_at sm' n).current_pod_names ≡ (info_at sm n).current_pod_names

  module _ (sm : StateManager) (s n : PodState) (v : Inv sm) (ne : same s n ≡ false) where
    push_step :
        {surplus : ℕ} {names : List String}
        → Selected surplus (all_names sm s) names
        → Pushes s n surplus sm
            (put_infos sm s n (push_pods (range names) (info_at sm s) (info_at sm n)))
    push_step {surplus} {names} c =
        let info = info_at sm s in
        let r = push_pods (range names) (info_at sm s) (info_at sm n) in
        let moved =
          push_pods-Pushed (range names) (info_at sm s) (info_at sm n) (v.proper s) (v.proper n)
            (Distinct-perm (Perm.symm (range_perm names)) c.distinct)
            (λ a m.
              sym (has-union a info.current_pod_names info.candidate_pod_names)
              ∙ c.among a (sym (has-perm a (range_perm names)) ∙ m))
            (λ a. pair_le a (sum-pair_le (places a) sm s n ne) (v.once a)) in
        record {
          kept =
              put_infos-Kept sm s n r v ne moved.proper moved.proper_neighbor moved.desired
                moved.desired_neighbor moved.kept (omega (arith, moved.grown, moved.shrunk));
          size_after = rw (put_infos-first sm s n r ne) (
              omega (
                arith,
                moved.shrunk,
                c.many,
                length-perm (range_perm names),
                length-union info.current_pod_names info.candidate_pod_names (v.proper s).candidate
                    (λ a. either_one a sm s v),
              ));
          others = put_infos-other sm s n r;
          same_current = rw (put_infos-second sm s n r) moved.same_current;
        }
      where
        pair_le :
            (a : String)
            → places a (info_at sm s) + places a (info_at sm n) ≤ sum (places a) sm
            → sum (places a) sm ≤ 1
            → places a (info_at sm s) + places a (info_at sm n) ≤ 1
        pair_le a h k = omega arith

    pub push-Pushes :
        (rest : List PodState) (surplus : ℕ)
        → Ensures sorter (Pushes s n surplus sm) (push order sorter s (n ∷ rest) (pos surplus) sm)
    unfolding push
    push-Pushes rest surplus =
        Ensures-bind sorter (Selected surplus (all_names sm s)) (Pushes s n surplus sm) _ _
          (Ensures-wrap_err sorter (Selected surplus (all_names sm s)) _ _ _ (
            select_pods_lem order law sm surplus false (all_names sm s)
              (union-Distinct _ _ (v.proper s).current) (all_names-known sm s v)))
          (λ names c. push_step c)
