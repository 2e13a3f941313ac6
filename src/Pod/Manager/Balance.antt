-- ===== src/Pod/Manager/Balance.antt =====
-- One round of CalculateStateChange, and all the rounds.
use kapacity.Common.{
  ℕ, ◌+◌, ◌-◌, ◌<◌, min, true, false, List, ◌∷◌, ◌≡◌, refl, ap, string_eq, arith, Bool-cases, inl,
  inr,
}
use kapacity.Common.Int.{ℤ, pos, ◌-ℤ◌, ltb_ℤ}
use kapacity.Common.Sets.{has, Distinct}
use kapacity.Common.Range.{MapRange}
use kapacity.Pod.Data.{PodState}
use kapacity.Pod.Sorter.{Sorter, IsSorter}
use kapacity.Pod.Manager.{StateManager, balance}
use kapacity.Pod.Manager.Select.{Ensures, Ensures-mono}
use kapacity.Pod.Manager.Transfer.{size}
use kapacity.Pod.Manager.Infos.{same, state_eq, info_at, Inv, Kept, Kept-refl}
use kapacity.Pod.Manager.Pull.{init, current_in, Pulls, pull-Pulls}
use kapacity.Pod.Manager.Push.{Pushes, push-Pushes}

pub record Balanced (s n : PodState) (rest : List PodState) (d : ℕ) (sm sm' : StateManager)
    : Type 0 where
  pub kept : Kept sm sm'
  pub size_after :
      size (info_at sm' s) ≡ min d (size (info_at sm s) + current_in (init (n ∷ rest)) sm)
  pub others :
      (t : PodState)
      → same t s ≡ false
      → same t n ≡ false
      → has t (init (n ∷ rest)) ≡ false
      → info_at sm' t ≡ info_at sm t
  pub candidates :
      (t : PodState)
      → same t s ≡ false
      → same t n ≡ false
      → (info_at sm' t).candidate_pod_names ≡ (info_at sm t).candidate_pod_names

module _ (order : MapRange) {sorter : Sorter} (law : IsSorter sorter) where
  pub balance-Balanced :
      (s n : PodState) (rest : List PodState) (d : ℕ) (sm : StateManager)
      → Inv sm
      → (info_at sm s).desired_replicas ≡ pos d
      → has s (n ∷ rest) ≡ false
      → Distinct (n ∷ rest)
      → Ensures sorter (Balanced s n rest d sm) (balance order sorter s (n ∷ rest) sm)
  unfolding balance has
  balance-Balanced s n rest d sm v want f dd = rw want (elim (Bool-cases (ltb_ℤ diff (pos 0))) [
    | inl e ↦ rw e (
        Ensures-mono sorter _ (Balanced s n rest d sm) _ (pulled (ground arith)) (
          pull-Pulls order law s (n ∷ rest) (d - size (info_at sm s)) diff sm (ground arith) v f
            dd))
    | inr e ↦ elim (Bool-cases (ltb_ℤ (pos 0) diff)) [
      | inl e' ↦
          rw (e, e', surplus e')
            (Ensures-mono sorter _ (Balanced s n rest d sm) _ (pushed (ground arith))
              (push-Pushes order law sm s n v (ground arith) rest (size (info_at sm s) - d)))
      | inr e' ↦
          rw (e, e')
            (record {
              kept = Kept-refl v;
              size_after = ground arith;
              others = λ t _ _ _. refl;
              candidates = λ t _ _. refl;
            })
    ]
  ])
    where
      diff : ℤ
      diff = pos (size (info_at sm s)) -ℤ pos d

      surplus : ltb_ℤ (pos 0) diff ≡ true → diff ≡ pos (size (info_at sm s) - d)
      surplus e = ground arith

      pulled :
          size (info_at sm s) < d
          → (sm' : StateManager) → Pulls order law s (n ∷ rest) (d - size (info_at sm s)) sm sm'
          → Balanced s n rest d sm sm'
      pulled lt sm' p = record {
        kept = p.kept;
        size_after = omega (arith, p.size_after);
        others = λ t hs hn hi. p.others t hs hi;
        candidates = λ t hs hn. p.candidates t hs;
      }

      pushed :
          d < size (info_at sm s)
          → (sm' : StateManager) → Pushes order law s n (size (info_at sm s) - d) sm sm'
          → Balanced s n rest d sm sm'
      pushed lt sm' p = record {
        kept = p.kept;
        size_after = omega (arith, p.size_after);
        others = λ t hs hn hi. p.others t hs hn;
        candidates = λ t hs hn. ap (λ i. i.candidate_pod_names) (p.others t hs hn);
      }
