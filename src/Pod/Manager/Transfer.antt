-- ===== src/Pod/Manager/Transfer.antt =====
-- The two loops that move selected names between the sets of two states.
use kapacity.Common.{
  ℕ, ◌+◌, ◌≤◌, String, Bool, ◌||◌, true, false, List, [], ◌∷◌, ◌≡◌, refl, string_eq, length, bit,
  arith,
}
use kapacity.Common.Sets.{
  has, insert, delete, Distinct, has-insert, has-delete, insert-Distinct, delete-Distinct,
  length-insert, length-delete, beq_self,
}
use kapacity.Common.Dict.{str_iff}
use kapacity.Pod.Manager.{StateInfo, pull_pods, push_pods}

-- How many of two sets hold a name.
abbrev pub held : String → List String → List String → ℕ
held a xs ys = bit (has a xs) + bit (has a ys)

-- The sizes of both sets of a state.
abbrev pub size : StateInfo → ℕ
size i = length i.current_pod_names + length i.candidate_pod_names

abbrev pub places : String → StateInfo → ℕ
places a i = held a i.current_pod_names i.candidate_pod_names

pub record IsProper (i : StateInfo) : Type 0 where
  pub current : Distinct i.current_pod_names
  pub candidate : Distinct i.candidate_pod_names

-- The state above takes the names as candidates, and the state below loses them.
pub record Pulled (names : List String) (info neighbor info' neighbor' : StateInfo) : Type 0 where
  pub proper : IsProper info'
  pub proper_neighbor : IsProper neighbor'
  pub desired : info'.desired_replicas ≡ info.desired_replicas
  pub desired_neighbor : neighbor'.desired_replicas ≡ neighbor.desired_replicas
  pub same_current : info'.current_pod_names ≡ info.current_pod_names
  pub same_candidate : neighbor'.candidate_pod_names ≡ neighbor.candidate_pod_names
  pub grown : size info' ≡ size info + length names
  pub shrunk : size neighbor' + length names ≡ size neighbor
  pub kept : (a : String) → places a info' + places a neighbor' ≡ places a info + places a neighbor

pub has_head : (n : String) (names : List String) → has n (n ∷ names) ≡ true
unfolding has
has_head n names = ground (arith, beq_self n)

pub has_tail : (a n : String) (names : List String) → has a names ≡ true → has a (n ∷ names) ≡ true
unfolding has
has_tail a n names h = ground arith

among_rest :
    (a n : String) (names theirs : List String)
    → has n names ≡ false
    → has a names ≡ true
    → has a theirs ≡ true
    → has a (delete n theirs) ≡ true
among_rest a n names theirs d m h = ground (arith, has-delete a n theirs, str_iff a n)

moved_kept :
    (n : String) (info neighbor : StateInfo)
    → has n neighbor.current_pod_names ≡ true
    → places n info + places n neighbor ≤ 1
    → (a : String)
    → held a info.current_pod_names (insert n info.candidate_pod_names)
        + held a (delete n neighbor.current_pod_names) neighbor.candidate_pod_names
      ≡ places a info + places a neighbor
moved_kept n info neighbor h once a = ground (
  arith,
  has-insert a n info.candidate_pod_names,
  has-delete a n neighbor.current_pod_names,
  str_iff a n,
)

pub pull_pods-Pulled :
    (names : List String) (info neighbor : StateInfo)
    → IsProper info
    → IsProper neighbor
    → Distinct names
    → ((a : String) → has a names ≡ true → has a neighbor.current_pod_names ≡ true)
    → ((a : String) → places a info + places a neighbor ≤ 1)
    → let r = pull_pods names info neighbor in Pulled names info neighbor r.0 r.1
unfolding pull_pods
pull_pods-Pulled [] info neighbor p q d among once = record {
  proper = p;
  proper_neighbor = q;
  desired = refl;
  desired_neighbor = refl;
  same_current = refl;
  same_candidate = refl;
  grown = omega arith;
  shrunk = omega arith;
  kept = λ a. refl;
}
pull_pods-Pulled (n ∷ names) info neighbor p q d among once =
    let own = info.candidate_pod_names in
    let theirs = neighbor.current_pod_names in
    let info' = record info { candidate_pod_names = insert n own } in
    let neighbor' = record neighbor { current_pod_names = delete n theirs } in
    let there = among n (has_head n names) in
    let kept = moved_kept n info neighbor there (once n) in
    let rest =
      pull_pods-Pulled names info' neighbor'
        (record { current = p.current; candidate = insert-Distinct n own p.candidate })
        (record { current = delete-Distinct n theirs q.current; candidate = q.candidate }) d.1
        (λ a m. among_rest a n names theirs d.0 m (among a (has_tail a n names m)))
        (λ a. omega (arith, kept a, once a)) in
    record {
      proper = rest.proper;
      proper_neighbor = rest.proper_neighbor;
      desired = rest.desired;
      desired_neighbor = rest.desired_neighbor;
      same_current = rest.same_current;
      same_candidate = rest.same_candidate;
      grown = ground (arith, rest.grown, length-insert n own, once n);
      shrunk = ground (arith, rest.shrunk, length-delete n theirs q.current);
      kept = λ a. omega (arith, rest.kept a, kept a);
    }

-- The state below takes the names as candidates, and the state above loses them.
pub record Pushed (names : List String) (info neighbor info' neighbor' : StateInfo) : Type 0 where
  pub proper : IsProper info'
  pub proper_neighbor : IsProper neighbor'
  pub desired : info'.desired_replicas ≡ info.desired_replicas
  pub desired_neighbor : neighbor'.desired_replicas ≡ neighbor.desired_replicas
  pub same_current : neighbor'.current_pod_names ≡ neighbor.current_pod_names
  pub shrunk : size info' + length names ≡ size info
  pub grown : size neighbor' ≡ size neighbor + length names
  pub kept : (a : String) → places a info' + places a neighbor' ≡ places a info + places a neighbor

abbrev pub either : String → StateInfo → Bool
either a i = has a i.current_pod_names || has a i.candidate_pod_names

among_either :
    (a n : String) (names : List String) (info : StateInfo)
    → has n names ≡ false
    → has a names ≡ true
    → either a info ≡ true
    → (has a (delete n info.current_pod_names) || has a (delete n info.candidate_pod_names)) ≡ true
among_either a n names info d m h = ground (
  arith,
  has-delete a n info.current_pod_names,
  has-delete a n info.candidate_pod_names,
  str_iff a n,
)

dropped_kept :
    (n : String) (info neighbor : StateInfo)
    → either n info ≡ true
    → places n info + places n neighbor ≤ 1
    → (a : String)
    → held a (delete n info.current_pod_names) (delete n info.candidate_pod_names)
        + held a neighbor.current_pod_names (insert n neighbor.candidate_pod_names)
      ≡ places a info + places a neighbor
dropped_kept n info neighbor h once a = ground (
  arith,
  has-insert a n neighbor.candidate_pod_names,
  has-delete a n info.current_pod_names,
  has-delete a n info.candidate_pod_names,
  str_iff a n,
)

pub push_pods-Pushed :
    (names : List String) (info neighbor : StateInfo)
    → IsProper info
    → IsProper neighbor
    → Distinct names
    → ((a : String) → has a names ≡ true → either a info ≡ true)
    → ((a : String) → places a info + places a neighbor ≤ 1)
    → let r = push_pods names info neighbor in Pushed names info neighbor r.0 r.1
unfolding push_pods
push_pods-Pushed [] info neighbor p q d among once = record {
  proper = p;
  proper_neighbor = q;
  desired = refl;
  desired_neighbor = refl;
  same_current = refl;
  shrunk = omega arith;
  grown = omega arith;
  kept = λ a. refl;
}
push_pods-Pushed (n ∷ names) info neighbor p q d among once =
    let current = info.current_pod_names in
    let candidate = info.candidate_pod_names in
    let theirs = neighbor.candidate_pod_names in
    let info' = record info {
      current_pod_names = delete n current;
      candidate_pod_names = delete n candidate;
    } in
    let neighbor' = record neighbor { candidate_pod_names = insert n theirs } in
    let there = among n (has_head n names) in
    let kept = dropped_kept n info neighbor there (once n) in
    let rest =
      push_pods-Pushed names info' neighbor'
        (record {
          current = delete-Distinct n current p.current;
          candidate = delete-Distinct n candidate p.candidate;
        })
        (record { current = q.current; candidate = insert-Distinct n theirs q.candidate }) d.1
        (λ a m. among_either a n names info d.0 m (among a (has_tail a n names m)))
        (λ a. omega (arith, kept a, once a)) in
    record {
      proper = rest.proper;
      proper_neighbor = rest.proper_neighbor;
      desired = rest.desired;
      desired_neighbor = rest.desired_neighbor;
      same_current = rest.same_current;
      shrunk = ground (
        arith,
        rest.shrunk,
        length-delete n current p.current,
        length-delete n candidate p.candidate,
        once n,
      );
      grown = ground (arith, rest.grown, length-insert n theirs, once n);
      kept = λ a. omega (arith, rest.kept a, kept a);
    }
