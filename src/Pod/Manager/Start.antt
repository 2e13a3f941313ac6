-- ===== src/Pod/Manager/Start.antt =====
-- NewStateManager. Running pods of one namespace have different names.
use kapacity.Common.{
  ℕ, ◌+◌, ◌≤◌, String, Bool, true, List, [], ◌∷◌, ◌++◌, ◌≡◌, refl, ap, length, length-append, arith,
  subst, ◌||◌, string_eq, ◌==◌, bit, sym,
}
use kapacity.Common.Int.{ℤ, pos}
use kapacity.Common.Dict.{find, put, find-put, str_iff}
use kapacity.Common.Sets.{
  has, insert, Distinct, has-insert, has-append, Distinct-split, insert-Distinct, length-insert,
}
use kapacity.Pod.Data.{Pod, PodState, online, cutoff, standby, deleted}
use kapacity.Pod.State.{ByState, at_state}
use kapacity.Pod.Util.{get_pod_names}
use kapacity.Pod.Manager.{StateInfo, StateManager, add_current, new_info, new_state_manager}
use kapacity.Pod.Manager.Select.{is_named}
use kapacity.Pod.Manager.Transfer.{size, places, IsProper}
use kapacity.Pod.Manager.Infos.{sum, info_at}
use kapacity.Pod.Manager.Laws.{IsFresh}

record Added (pods : List Pod) (before after : StateInfo × List (String × Pod)) : Type 0 where
  desired : after.0.desired_replicas ≡ before.0.desired_replicas
  candidates : after.0.candidate_pod_names ≡ before.0.candidate_pod_names
  distinct : Distinct after.0.current_pod_names
  members :
      (a : String)
      → has a after.0.current_pod_names
        ≡ (has a before.0.current_pod_names || has a (get_pod_names pods))
  many : length after.0.current_pod_names ≡ length before.0.current_pod_names + length pods
  names :
      (a : String)
      → (has a (get_pod_names pods) || is_named a (find a before.1)) ≡ true
      → is_named a (find a after.1) ≡ true

put_named :
    (p : Pod) (m : List (String × Pod)) (a : String) (b : Bool)
    → ((a == p.name || b) || is_named a (find a m)) ≡ true
    → (b || is_named a (find a (put p.name p m))) ≡ true
put_named p m a b h = ground (arith, find-put p.name a p m, str_iff p.name a, str_iff a p.name)

add_current-Added :
    (pods : List Pod) (before : StateInfo × List (String × Pod))
    → Distinct (get_pod_names pods)
    → Distinct before.0.current_pod_names
    → ((a : String) → bit (has a before.0.current_pod_names) + bit (has a (get_pod_names pods)) ≤ 1)
    → Added pods before (add_current pods before)
unfolding add_current get_pod_names has
add_current-Added [] (info, m) d c apart = record {
  desired = refl;
  candidates = refl;
  distinct = c;
  members = λ a. ground arith;
  many = omega arith;
  names = λ a h. h;
}
add_current-Added (p ∷ pods) (info, m) d c apart =
    let cur = info.current_pod_names in
    let rest =
      add_current-Added pods (record info { current_pod_names = insert p.name cur }, put p.name p m)
        d.1 (insert-Distinct p.name cur c)
        (λ a. ground (arith, has-insert a p.name cur, apart a, str_iff a p.name)) in
    record {
      desired = rest.desired;
      candidates = rest.candidates;
      distinct = rest.distinct;
      members = λ a. ground (arith, rest.members a, has-insert a p.name cur);
      many =
          ground (arith, rest.many, length-insert p.name cur, apart p.name, str_iff p.name p.name);
      names = λ a h. rest.names a (put_named p m a (has a (get_pod_names pods)) h);
    }

get_pod_names-append :
    (xs ys : List Pod) → get_pod_names (xs ++ ys) ≡ get_pod_names xs ++ get_pod_names ys
unfolding get_pod_names
get_pod_names-append [] ys = refl
get_pod_names-append (x ∷ xs) ys = ap (λ l. x.name ∷ l) (get_pod_names-append xs ys)

-- The running pods in the order of their states.
abbrev pub running_pods : ByState (List Pod) → List Pod
running_pods pods = pods.of_online ++ pods.of_cutoff ++ pods.of_standby

-- One state's info as the loop over its pods leaves it.
record Listed (pods : List Pod) (n : ℤ) (m : List (String × Pod))
    (after : StateInfo × List (String × Pod)) : Type 0 where
  desired : after.0.desired_replicas ≡ n
  no_candidates : after.0.candidate_pod_names ≡ []
  proper : IsProper after.0
  here : (a : String) → places a after.0 ≡ bit (has a (get_pod_names pods))
  many : size after.0 ≡ length pods
  held : (a : String) → has a after.0.current_pod_names ≡ has a (get_pod_names pods)
  names :
      (a : String)
      → (has a (get_pod_names pods) || is_named a (find a m)) ≡ true
      → is_named a (find a after.1) ≡ true

add_current-Listed :
    (pods : List Pod) (n : ℤ) (m : List (String × Pod))
    → Distinct (get_pod_names pods)
    → Listed pods n m (add_current pods (new_info n, m))
unfolding new_info has
add_current-Listed pods n m d =
    let added = add_current-Added pods (new_info n, m) d tt (λ a. bit_le a) in
    record {
      desired = added.desired;
      no_candidates = added.candidates;
      proper = record { current = added.distinct; candidate = rw added.candidates tt };
      here = λ a. rw (added.candidates, added.members a) (omega arith);
      many = rw added.candidates (omega (arith, added.many));
      held = added.members;
      names = added.names;
    }
  where
    bit_le : (a : String) → 0 + bit (has a (get_pod_names pods)) ≤ 1
    bit_le a = ground arith

abbrev pub wanted : ByState ℕ → ByState ℤ
wanted d = record {
  of_online = pos d.of_online;
  of_cutoff = pos d.of_cutoff;
  of_standby = pos d.of_standby;
  of_deleted = pos d.of_deleted;
}

-- The pods of each state are those that were given for it, by their names and their number.
abbrev pub Holds : ByState (List Pod) → StateManager → Type 0
Holds pods sm =
    (t : PodState)
    → (size (info_at sm t) ≡ length (at_state pods t))
      × ((a : String)
          → has a (info_at sm t).current_pod_names ≡ has a (get_pod_names (at_state pods t)))

-- Whatever the three lists, with the deleted one empty.
start_lem :
    (d : ByState ℕ) (o c s : List Pod)
    → Distinct (get_pod_names o)
    → Distinct (get_pod_names c)
    → Distinct (get_pod_names s)
    → ((a : String)
        → bit (has a (get_pod_names o))
            + bit (has a (get_pod_names c))
            + bit (has a (get_pod_names s))
          ≤ 1)
    → let pods : ByState (List Pod) = record {
      of_online = o;
      of_cutoff = c;
      of_standby = s;
      of_deleted = [];
    } in
      let sm = new_state_manager (wanted d) pods in
      IsFresh d sm × (sum size sm ≡ length o + length c + length s) × Holds pods sm
unfolding new_state_manager new_info add_current has get_pod_names
start_lem d o c s dist_o dist_c dist_s apart =
    let a1 = add_current-Listed o (pos d.of_online) [] dist_o in
    let a2 = add_current-Listed c (pos d.of_cutoff) _ dist_c in
    let a3 = add_current-Listed s (pos d.of_standby) _ dist_s in
    (
      record {
        inv = record {
          proper = elim [
            | online ↦ a1.proper
            | cutoff ↦ a2.proper
            | standby ↦ a3.proper
            | deleted ↦ record { current = tt; candidate = tt }
          ];
          once = λ a. omega (arith, a1.here a, a2.here a, a3.here a, apart a);
          all_known = λ a h.
              ground
                (arith, h, a1.here a, a2.here a, a3.here a, a1.names a, a2.names a, a3.names a);
        };
        no_candidates = elim [
          | online ↦ a1.no_candidates
          | cutoff ↦ a2.no_candidates
          | standby ↦ a3.no_candidates
          | deleted ↦ refl
        ];
        none_deleted = refl;
        want_online = a1.desired;
        want_cutoff = a2.desired;
        want_standby = a3.desired;
      },
      omega (arith, a1.many, a2.many, a3.many),
      elim [
        | online ↦ (a1.many, a1.held)
        | cutoff ↦ (a2.many, a2.held)
        | standby ↦ (a3.many, a3.held)
        | deleted ↦ (refl, λ a. refl)
      ],
    )

-- For pods of different names, none of them in the state deleted, NewStateManager makes a fresh
-- manager: it wants of each state what is desired, it holds under each state the pods that were given
-- for it and no other, has one place for each pod, no candidates, and knows every pod by its name.
pub new_state_manager-IsFresh :
    (d : ByState ℕ) (pods : ByState (List Pod))
    → pods.of_deleted ≡ []
    → Distinct (get_pod_names (running_pods pods))
    → let sm = new_state_manager (wanted d) pods in
      IsFresh d sm × (sum size sm ≡ length (running_pods pods)) × Holds pods sm
new_state_manager-IsFresh d pods none_deleted distinct =
    let o = pods.of_online in
    let c = pods.of_cutoff in
    let s = pods.of_standby in
    let whole = subst (λ l. Distinct l) (get_pod_names-append (o ++ c) s) distinct in
    let (front, ds, apart) = Distinct-split (get_pod_names (o ++ c)) (get_pod_names s) whole in
    let halves = subst (λ l. Distinct l) (get_pod_names-append o c) front in
    let (do_, dc, apart') = Distinct-split (get_pod_names o) (get_pod_names c) halves in
    let (fresh, many, holds) = start_lem d o c s do_ dc ds (λ a. ground (
      arith,
      apart a,
      apart' a,
      ap (has a) (get_pod_names-append o c),
      has-append a (get_pod_names o) (get_pod_names c),
    )) in
    subst
      (λ (p : ByState (List Pod)).
        IsFresh d (new_state_manager (wanted d) p)
        × (sum size (new_state_manager (wanted d) p) ≡ length (running_pods pods))
        × Holds p (new_state_manager (wanted d) p))
      (sym same_pods)
      (fresh, omega (arith, many, length-append (o ++ c) s, length-append o c), holds)
  where
    same_pods : pods ≡ record pods { of_deleted = [] }
    same_pods = λ i. record pods { of_deleted = none_deleted i }
