-- ===== src/Pod/Manager/Laws.antt =====
-- CalculateStateChange as a whole.
use kapacity.Common.{ℕ, ◌-◌, min, [], ◌∷◌, ◌≡◌, refl, ap, length, arith, ok, string_eq, ◌∙◌}
use kapacity.Common.Int.{pos}
use kapacity.Common.Range.{MapRange}
use kapacity.Common.Sets.{has}
use kapacity.Pod.Data.{PodState, online, cutoff, standby, deleted}
use kapacity.Pod.State.{ByState}
use kapacity.Pod.Sorter.{Sorter, IsSorter}
use kapacity.Pod.Manager.{
  StateManager, StateChange, balance, rounds, change_of, calculate_state_change, pull, push,
}
use kapacity.Pod.Manager.Select.{Ensures, Ensures-bind}
use kapacity.Pod.Manager.Transfer.{size}
use kapacity.Pod.Manager.Infos.{info_at, Inv, Kept, Kept-trans, sum}
use kapacity.Pod.Manager.Balance.{Balanced, balance-Balanced}

-- A manager as NewStateManager makes it.
pub record IsFresh (d : ByState ℕ) (sm : StateManager) : Type 0 where
  pub inv : Inv sm
  pub no_candidates : (t : PodState) → (info_at sm t).candidate_pod_names ≡ []
  pub none_deleted : (info_at sm deleted).current_pod_names ≡ []
  pub want_online : (info_at sm online).desired_replicas ≡ pos d.of_online
  pub want_cutoff : (info_at sm cutoff).desired_replicas ≡ pos d.of_cutoff
  pub want_standby : (info_at sm standby).desired_replicas ≡ pos d.of_standby

-- The places as the greedy allocation hands them out: each running state in turn gets what is
-- desired of it, as far as there are pods left, and the rest are to be deleted.
pub record Greedy (d : ByState ℕ) (sm sm' : StateManager) : Type 0 where
  pub online_size : size (info_at sm' online) ≡ min d.of_online (sum size sm)
  pub cutoff_size :
      size (info_at sm' cutoff) ≡ min d.of_cutoff (sum size sm - size (info_at sm' online))
  pub standby_size :
      size (info_at sm' standby)
      ≡ min d.of_standby (sum size sm - size (info_at sm' online) - size (info_at sm' cutoff))
  pub all_placed : sum size sm' ≡ sum size sm

Balanced-Greedy :
    {d : ByState ℕ} {sm sm1 sm2 sm3 : StateManager}
    → IsFresh d sm
    → Balanced online cutoff (standby ∷ deleted ∷ []) d.of_online sm sm1
    → Balanced cutoff standby (deleted ∷ []) d.of_cutoff sm1 sm2
    → Balanced standby deleted [] d.of_standby sm2 sm3
    → Greedy d sm sm3
unfolding has
Balanced-Greedy f a b c =
    let c1 = ap length (f.no_candidates cutoff) in
    let c2 = ap length (f.no_candidates standby) in
    let c3 = ap length (f.no_candidates deleted) in
    let c4 = ap length (f.none_deleted) in
    let e1 = ap length (a.candidates standby refl refl) in
    let e2 = ap size (a.others deleted refl refl refl) in
    let e3 = ap size (b.others online refl refl refl) in
    let e4 = ap size (b.others deleted refl refl refl) in
    let e5 = ap size (c.others online refl refl refl) in
    let e6 = ap size (c.others cutoff refl refl refl) in
    record {
      online_size = omega (arith, a.size_after);
      cutoff_size = omega (arith, a.size_after, b.size_after, a.kept.total);
      standby_size =
          omega (arith, a.size_after, b.size_after, c.size_after, a.kept.total, b.kept.total);
      all_placed = omega (arith, a.kept.total, b.kept.total, c.kept.total);
    }

-- What CalculateStateChange returns: the lists of the candidates, for a manager that it brought
-- to the greedy allocation by transfers that keep every name in exactly the places it had.
pub record IsChange (order : MapRange) (sorter : Sorter) (d : ByState ℕ) (sm : StateManager)
    (r : StateChange × StateManager) : Type 0 where
  pub change : r.0 ≡ change_of order sorter r.1
  pub kept : Kept sm r.1
  pub greedy : Greedy d sm r.1

module _ (order : MapRange) {sorter : Sorter} (law : IsSorter sorter) where
  balance_last : (sm : StateManager) → balance order sorter deleted [] sm ≡ ok sm
  unfolding balance pull push
  balance_last sm = ground arith

  -- For a sorter whose results are the pods that it was given, CalculateStateChange of a fresh
  -- manager fails only if the sorter fails on a list of pods, and panics only if the sorter does on
  -- such a list. Otherwise it allocates the pods greedily, neither loses nor duplicates one, and
  -- returns the candidates of each state.
  pub calculate_state_change_lem :
      (d : ByState ℕ) (sm : StateManager)
      → IsFresh d sm
      → Ensures sorter (IsChange order sorter d sm) (calculate_state_change order sorter sm)
  unfolding calculate_state_change rounds has
  calculate_state_change_lem d sm f =
      Ensures-bind sorter (λ sm3. Kept sm sm3 × Greedy d sm sm3) (IsChange order sorter d sm) _ _
        (Ensures-bind sorter (Balanced online cutoff (standby ∷ deleted ∷ []) d.of_online sm) _ _ _
          (balance-Balanced order law online cutoff (standby ∷ deleted ∷ []) d.of_online sm f.inv
            f.want_online refl (ground arith))
          (λ sm1 a.
            Ensures-bind sorter (Balanced cutoff standby (deleted ∷ []) d.of_cutoff sm1) _ _ _
              (balance-Balanced order law cutoff standby (deleted ∷ []) d.of_cutoff sm1 a.kept.inv
                (a.kept.desired cutoff ∙ f.want_cutoff) refl (ground arith))
              (λ sm2 b.
                Ensures-bind sorter (Balanced standby deleted [] d.of_standby sm2) _ _ _
                  (balance-Balanced order law standby deleted [] d.of_standby sm2 b.kept.inv
                    (b.kept.desired standby ∙ a.kept.desired standby ∙ f.want_standby) refl
                    (ground arith))
                  (λ sm3 c.
                    rw (balance_last sm3)
                      (Kept-trans (Kept-trans a.kept b.kept) c.kept, Balanced-Greedy f a b c)))))
        (λ sm3 k. record { change = refl; kept = k.0; greedy = k.1 })
