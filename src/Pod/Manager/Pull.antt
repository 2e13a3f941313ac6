-- ===== src/Pod/Manager/Pull.antt =====
-- The scale-up loop of CalculateStateChange over the later states.
use kapacity.Common.{
  ℕ, ◌+◌, ◌-◌, ◌≤◌, min, String, true, false, List, [], ◌∷◌, ◌≡◌, refl, sym, ◌∙◌, ap, length,
  string_eq, ◌||◌, Bool-cases, inl, inr, arith,
}
use kapacity.Common.Int.{ℤ, pos, ◌+ℤ◌, ◌-ℤ◌, ltb_ℤ}
use kapacity.Common.Sets.{has, Distinct}
use kapacity.Common.Range.{MapRange}
use kapacity.Common.Perms.{length-perm, has-perm, Distinct-perm, every}
use mathlib.Core.List.Perm
use kapacity.Pod.Data.{PodState}
use kapacity.Pod.Sorter.{Sorter, IsSorter}
use kapacity.Pod.Manager.{StateManager, put_infos, pull_pods, pull}
use kapacity.Pod.Manager.Select.{
  known, Selected, Ensures, Ensures-bind, Ensures-wrap_err, Ensures-mono, select_pods_lem,
}
use kapacity.Pod.Manager.Transfer.{places, size, Pulled, pull_pods-Pulled}
use kapacity.Pod.Manager.Infos.{
  same, same_iff, state_eq, info_at, Inv, Kept, Kept-refl, Kept-trans, put_infos-Kept,
  put_infos-pick, put_infos-first, put_infos-other, not_both, not_same, sum-pair_le, sum-one_le,
  every_of_has, sum,
}

-- All states of a list but the last.
abbrev pub init : List PodState → List PodState
init [] = []
init (n ∷ []) = []
init (n ∷ m ∷ rest) = n ∷ init (m ∷ rest)

-- The current pods of some states.
abbrev pub current_in : List PodState → StateManager → ℕ
current_in [] sm = 0
current_in (n ∷ ns) sm = length (info_at sm n).current_pod_names + current_in ns sm

pub current_known :
    (sm : StateManager) (s : PodState)
    → Inv sm
    → every (known sm) (info_at sm s).current_pod_names ≡ true
current_known sm s v =
    every_of_has (known sm) _
      λ a h. v.all_known a (held_once a h (v.once a) (sum-one_le (places a) sm s))
  where
    held_once :
        (a : String)
        → has a (info_at sm s).current_pod_names ≡ true
        → sum (places a) sm ≤ 1
        → places a (info_at sm s) ≤ sum (places a) sm
        → sum (places a) sm ≡ 1
    held_once a h o l = ground arith

module _ (order : MapRange) {sorter : Sorter} (law : IsSorter sorter) where
  open order use {range, range_perm}

  module _ (sm : StateManager) (s n : PodState) (v : Inv sm) (ne : same s n ≡ false) where
    pull_step :
        {need : ℕ} {names : List String}
        → Selected need (info_at sm n).current_pod_names names
        → let r = pull_pods (range names) (info_at sm s) (info_at sm n) in
          Kept sm (put_infos sm s n r) × Pulled (range names) (info_at sm s) (info_at sm n) r.0 r.1
    pull_step {names = names} c =
        let once = λ (a : String). le_pair a (sum-pair_le (places a) sm s n ne) (v.once a) in
        let moved =
          pull_pods-Pulled (range names) (info_at sm s) (info_at sm n) (v.proper s) (v.proper n)
            (Distinct-perm (Perm.symm (range_perm names)) c.distinct)
            (λ a m. c.among a (sym (has-perm a (range_perm names)) ∙ m)) once in
        (
          put_infos-Kept sm s n (pull_pods (range names) (info_at sm s) (info_at sm n)) v ne
              moved.proper moved.proper_neighbor moved.desired moved.desired_neighbor moved.kept
              (omega (arith, moved.grown, moved.shrunk)),
          moved,
        )
      where
        le_pair :
            (a : String)
            → places a (info_at sm s) + places a (info_at sm n) ≤ sum (places a) sm
            → sum (places a) sm ≤ 1
            → places a (info_at sm s) + places a (info_at sm n) ≤ 1
        le_pair a h k = omega arith

  -- What the loop over the states behind a state does for a need of that state.
  pub record Pulls (s : PodState) (list : List PodState) (need : ℕ) (sm sm' : StateManager)
      : Type 0 where
    pub kept : Kept sm sm'
    pub size_after :
        size (info_at sm' s) ≡ size (info_at sm s) + min need (current_in (init list) sm)
    pub others :
        (t : PodState) → same t s ≡ false → has t (init list) ≡ false → info_at sm' t ≡ info_at sm t
    pub candidates :
        (t : PodState)
        → same t s ≡ false
        → (info_at sm' t).candidate_pod_names ≡ (info_at sm t).candidate_pod_names

  Pulls-none :
      (s : PodState) (list : List PodState) (need : ℕ) (sm : StateManager)
      → Inv sm
      → min need (current_in (init list) sm) ≡ 0
      → Pulls s list need sm sm
  Pulls-none s list need sm v h = record {
    kept = Kept-refl v;
    size_after = omega arith;
    others = λ t _ _. refl;
    candidates = λ t _. refl;
  }

  current_in-same :
      (ns : List PodState) (sm sm' : StateManager)
      → ((t : PodState)
          → has t ns ≡ true
          → (info_at sm' t).current_pod_names ≡ (info_at sm t).current_pod_names)
      → current_in ns sm' ≡ current_in ns sm
  unfolding has
  current_in-same [] sm sm' h = refl
  current_in-same (n ∷ ns) sm sm' h = omega (
    arith,
    ap length (h n (ground (arith, same_iff n n))),
    current_in-same ns sm sm' (λ t m. h t (ground arith)),
  )

  pub has-init :
      (t : PodState) (list : List PodState) → has t list ≡ false → has t (init list) ≡ false
  unfolding has
  has-init t [] h = h
  has-init t (n ∷ []) h = refl
  has-init t (n ∷ m ∷ rest) h = ground (arith, has-init t (m ∷ rest))

  -- One state's pods pulled, and then those of the others.
  pull_more :
      (s n next : PodState) (rest : List PodState) (need : ℕ) (sm : StateManager)
      → Inv sm
      → same s n ≡ false
      → Distinct (n ∷ next ∷ rest)
      → {pods : List String} {sm2 : StateManager}
      → Selected need (info_at sm n).current_pod_names pods
      → Pulls s
          (next ∷ rest)
          (need - length pods)
          (put_infos sm s n (pull_pods (range pods) (info_at sm s) (info_at sm n)))
          sm2
      → Pulls s (n ∷ next ∷ rest) need sm sm2
  unfolding has
  pull_more s n next rest need sm v ne d {pods} {sm2} c p =
      let (kept, moved) = pull_step sm s n v ne c in
      let r = pull_pods (range pods) (info_at sm s) (info_at sm n) in
      let left = current_in-same (init (next ∷ rest)) sm (put_infos sm s n r) (λ t m.
        put_infos-pick sm s n r (λ i. i.current_pod_names ≡ (info_at sm t).current_pod_names) t
          (λ e. absurd (not_both (has-init n (next ∷ rest) d.0) (rw e at m)))
          (λ e. rw e moved.same_current) refl) in
      record {
        kept = Kept-trans kept p.kept;
        size_after = ground (
          arith,
          p.size_after,
          left,
          moved.grown,
          length-perm (range_perm pods),
          ap size (put_infos-first sm s n r ne),
          c.many,
        );
        others =
            λ t ns ni. p.others t ns (ground arith) ∙ put_infos-other sm s n r t ns (ground arith);
        candidates = λ t ns.
            p.candidates t ns
            ∙ put_infos-pick sm s n r
                (λ i. i.candidate_pod_names ≡ (info_at sm t).candidate_pod_names) t
                (λ e. rw e moved.same_candidate) (λ e. absurd (not_same ns e)) refl;
      }

  pub pull-Pulls :
      (s : PodState) (list : List PodState) (need : ℕ) (diff : ℤ) (sm : StateManager)
      → diff ≡ pos 0 -ℤ pos need
      → Inv sm
      → has s list ≡ false
      → Distinct list
      → Ensures sorter (Pulls s list need sm) (pull order sorter s list diff sm)
  unfolding pull has
  pull-Pulls s [] need diff sm neg v f d = Pulls-none s [] need sm v (omega arith)
  pull-Pulls s (n ∷ []) need diff sm neg v f d = Pulls-none s (n ∷ []) need sm v (omega arith)
  pull-Pulls s (n ∷ next ∷ rest) need diff sm neg v f d = elim (Bool-cases (ltb_ℤ diff (pos 0))) [
    | inr e ↦ rw e (Pulls-none s (n ∷ next ∷ rest) need sm v (ground arith))
    | inl e ↦
        rw (e, negate)
          (Ensures-bind sorter (Selected need theirs) (Pulls s (n ∷ next ∷ rest) need sm) _ _
            (Ensures-wrap_err sorter (Selected need theirs) _ _ _ (
              select_pods_lem order law sm need true theirs (v.proper n).current
                (current_known sm n v)))
            (λ pods c.
              let (kept, moved) = pull_step sm s n v (apart f) c in
              Ensures-mono sorter (Pulls s (next ∷ rest) (need - length pods) (after pods)) _ _
                (λ sm2 p. pull_more s n next rest need sm v (apart f) d c p)
                (pull-Pulls s (next ∷ rest) (need - length pods) (diff +ℤ pos (length pods))
                  (after pods) (less pods c.many) kept.inv (ground arith) d.1)))
  ]
    where
      theirs : List String
      theirs = (info_at sm n).current_pod_names

      after : List String → StateManager
      after pods = put_infos sm s n (pull_pods (range pods) (info_at sm s) (info_at sm n))

      apart : (same s n || has s (next ∷ rest)) ≡ false → same s n ≡ false
      apart g = ground arith

      less :
          (pods : List String)
          → length pods ≡ min need (length theirs)
          → diff +ℤ pos (length pods) ≡ pos 0 -ℤ pos (need - length pods)
      less pods m = ground arith

      negate : pos 0 -ℤ diff ≡ pos need
      negate = ground arith
