-- ===== src/Pod/Manager/Infos.antt =====
-- The four states' infos seen together: reading back what a transfer wrote, sums over the states,
-- and the invariant of the manager.
use kapacity.Common.{
  ℕ, ◌+◌, ◌≤◌, String, Bool, true, false, List, [], ◌∷◌, ◌≡◌, ◌≢◌, refl, if◌then◌else◌, arith, Eq,
  string_eq, sym, ◌↔◌, ◌∙◌,
}
use kapacity.Common.Sets.{has}
use kapacity.Common.Perms.{every}
use kapacity.Pod.Data.{PodState, online, cutoff, standby, deleted}
use kapacity.Pod.State.{at_state}
use kapacity.Pod.Manager.{StateInfo, StateManager, put_infos}
use kapacity.Pod.Manager.Select.{known}
use kapacity.Pod.Manager.Transfer.{places, size, IsProper, has_head, has_tail}

-- Whether two states are the same.
abbrev pub same : PodState → PodState → Bool
same online online = true
same cutoff cutoff = true
same standby standby = true
same deleted deleted = true
same _ _ = false

pub same_iff : (s t : PodState) → (same s t ≡ true) ↔ (s ≡ t)
same_iff online t = ground arith
same_iff cutoff t = ground arith
same_iff standby t = ground arith
same_iff deleted t = ground arith

instance abbrev pub state_eq : Eq PodState
state_eq = record { beq = same; agrees = same_iff }

abbrev pub info_at : StateManager → PodState → StateInfo
info_at sm s = at_state sm.states_info s

pub at_put_infos :
    (sm : StateManager) (s n t : PodState) (r : StateInfo × StateInfo)
    → info_at (put_infos sm s n r) t
      ≡ (if same t n then r.1 else if same t s then r.0 else info_at sm t)
at_put_infos sm online online t r = ground arith
at_put_infos sm online _ t r = ground arith
at_put_infos sm cutoff cutoff t r = ground arith
at_put_infos sm cutoff _ t r = ground arith
at_put_infos sm standby standby t r = ground arith
at_put_infos sm standby _ t r = ground arith
at_put_infos sm deleted deleted t r = ground arith
at_put_infos sm deleted _ t r = ground arith

abbrev pub sum : (StateInfo → ℕ) → StateManager → ℕ
sum f sm =
    f sm.states_info.of_online
    + f sm.states_info.of_cutoff
    + f sm.states_info.of_standby
    + f sm.states_info.of_deleted

-- A transfer that keeps the two states' sum keeps the sum of all.
pub sum-put_infos :
    (f : StateInfo → ℕ) (sm : StateManager) (s n : PodState) (r : StateInfo × StateInfo)
    → same s n ≡ false
    → f r.0 + f r.1 ≡ f (info_at sm s) + f (info_at sm n)
    → sum f (put_infos sm s n r) ≡ sum f sm
sum-put_infos f sm online online r h e = absurd (cc)
sum-put_infos f sm online _ r h e = omega arith
sum-put_infos f sm cutoff cutoff r h e = absurd (cc)
sum-put_infos f sm cutoff _ r h e = omega arith
sum-put_infos f sm standby standby r h e = absurd (cc)
sum-put_infos f sm standby _ r h e = omega arith
sum-put_infos f sm deleted deleted r h e = absurd (cc)
sum-put_infos f sm deleted _ r h e = omega arith

-- Two different states together hold no more than all do.
pub sum-pair_le :
    (f : StateInfo → ℕ) (sm : StateManager) (s n : PodState)
    → same s n ≡ false
    → f (info_at sm s) + f (info_at sm n) ≤ sum f sm
sum-pair_le f sm online online h = absurd (cc)
sum-pair_le f sm online _ h = omega arith
sum-pair_le f sm cutoff cutoff h = absurd (cc)
sum-pair_le f sm cutoff _ h = omega arith
sum-pair_le f sm standby standby h = absurd (cc)
sum-pair_le f sm standby _ h = omega arith
sum-pair_le f sm deleted deleted h = absurd (cc)
sum-pair_le f sm deleted _ h = omega arith

pub sum-one_le :
    (f : StateInfo → ℕ) (sm : StateManager) (s : PodState) → f (info_at sm s) ≤ sum f sm
sum-one_le f sm online = omega arith
sum-one_le f sm _ = omega arith

-- The sets are sets, no name stands in two of them, and the manager knows every name.
pub record Inv (sm : StateManager) : Type 0 where
  pub proper : (s : PodState) → IsProper (info_at sm s)
  pub once : (a : String) → sum (places a) sm ≤ 1
  pub all_known : (a : String) → sum (places a) sm ≡ 1 → known sm a ≡ true

-- What no transfer changes: the places of each name, the number of places taken, the desired
-- replicas and the name map.
pub record Kept (sm sm' : StateManager) : Type 0 where
  pub inv : Inv sm'
  pub placed : (a : String) → sum (places a) sm' ≡ sum (places a) sm
  pub total : sum size sm' ≡ sum size sm
  pub desired : (s : PodState) → (info_at sm' s).desired_replicas ≡ (info_at sm s).desired_replicas
  pub names : sm'.pod_name_map ≡ sm.pod_name_map

pub Kept-refl : {sm : StateManager} → Inv sm → Kept sm sm
Kept-refl v = record {
  inv = v;
  placed = λ a. refl;
  total = refl;
  desired = λ s. refl;
  names = refl;
}

pub Kept-trans : {sm sm' sm'' : StateManager} → Kept sm sm' → Kept sm' sm'' → Kept sm sm''
Kept-trans k k' = record {
  inv = k'.inv;
  placed = λ a. k'.placed a ∙ k.placed a;
  total = k'.total ∙ k.total;
  desired = λ s. k'.desired s ∙ k.desired s;
  names = k'.names ∙ k.names;
}

pub every_of_has :
    (p : String → Bool) (names : List String)
    → ((a : String) → has a names ≡ true → p a ≡ true)
    → every p names ≡ true
every_of_has p [] h = refl
every_of_has p (n ∷ names) h =
    rw (h n (has_head n names)) (every_of_has p names (λ a m. h a (has_tail a n names m)))

-- A property of the info that a transfer leaves at a state, by the three cases of that state.
pick {κ} :
    (P : StateInfo → Type κ) (b c : Bool) (x y z : StateInfo)
    → (b ≡ true → P x)
    → (c ≡ true → P y)
    → P z
    → P (if b then x else if c then y else z)
pick P true c x y z px py pz = px refl
pick P false true x y z px py pz = py refl
pick P false false x y z px py pz = pz

module _ (sm : StateManager) (s n : PodState) (r : StateInfo × StateInfo) where
  pub put_infos-pick {κ} :
      (P : StateInfo → Type κ) (t : PodState)
      → (t ≡ n → P r.1)
      → (t ≡ s → P r.0)
      → P (info_at sm t)
      → P (info_at (put_infos sm s n r) t)
  put_infos-pick P t pn ps p = rw (at_put_infos sm s n t r) (
      pick P (same t n) (same t s) r.1 r.0 (info_at sm t) (λ e. pn ((same_iff t n).0 e))
        (λ e. ps ((same_iff t s).0 e)) p)

  -- A transfer between two states that keeps their places and sizes keeps the invariant.
  pub put_infos-Kept :
      Inv sm
      → same s n ≡ false
      → IsProper r.0
      → IsProper r.1
      → r.0.desired_replicas ≡ (info_at sm s).desired_replicas
      → r.1.desired_replicas ≡ (info_at sm n).desired_replicas
      → ((a : String)
          → places a r.0 + places a r.1 ≡ places a (info_at sm s) + places a (info_at sm n))
      → size r.0 + size r.1 ≡ size (info_at sm s) + size (info_at sm n)
      → Kept sm (put_infos sm s n r)
  put_infos-Kept v ne p q ds dn pl sz = record {
    inv = record {
      proper = λ t. put_infos-pick IsProper t (λ _. q) (λ _. p) (v.proper t);
      once = λ a. omega (arith, sum-put_infos (places a) sm s n r ne (pl a), v.once a);
      all_known = λ a h. v.all_known a (sym (sum-put_infos (places a) sm s n r ne (pl a)) ∙ h);
    };
    placed = λ a. sum-put_infos (places a) sm s n r ne (pl a);
    total = sum-put_infos size sm s n r ne sz;
    desired = λ t.
        put_infos-pick (λ i. i.desired_replicas ≡ (info_at sm t).desired_replicas) t (λ e. rw e dn)
          (λ e. rw e ds) refl;
    names = refl;
  }

  pub put_infos-first : same s n ≡ false → info_at (put_infos sm s n r) s ≡ r.0
  put_infos-first ne = rw (at_put_infos sm s n s r, ne, (same_iff s s).1 refl)

  pub put_infos-second : info_at (put_infos sm s n r) n ≡ r.1
  put_infos-second = rw (at_put_infos sm s n n r, (same_iff n n).1 refl)

  pub put_infos-other :
      (t : PodState)
      → same t s ≡ false
      → same t n ≡ false
      → info_at (put_infos sm s n r) t ≡ info_at sm t
  put_infos-other t hs hn = rw (at_put_infos sm s n t r, hn, hs)

pub not_both : {b : Bool} → b ≡ false → b ≡ true → ⊥
not_both h k = cc

pub not_same : {s t : PodState} → same t s ≡ false → t ≢ s
not_same {s} {t} h e = not_both h ((same_iff t s).1 e)
