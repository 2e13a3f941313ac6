-- ===== src/Pod/Manager/Select.antt =====
-- selectPodsToTransfer.
use mathlib.Core.List.{Perm, reverse_perm}
use mathlib.Core.List.Perm
use kapacity.Common.{
  ℕ, ◌+◌, ◌≤◌, ◌<◌, min, String, Bool, true, false, ◌&&◌, ◌||◌, List, [], ◌∷◌, Option, none, some,
  map, reverse, if◌then◌else◌, ◌≡◌, refl, sym, subst, ◌∙◌, ◌==◌, string_eq, Go, Error, ok, err,
  panic, ◌>>=◌, wrap_err, length, bit, arith, inl, inr, Bool-cases,
}
use kapacity.Common.Int.{pos, leb_ℤ, eqb_ℤ}
use kapacity.Common.Sets.{
  has, insert, Distinct, has-insert, insert-Distinct, length-insert, beq_self,
}
use kapacity.Common.Dict.{find, str_iff}
use kapacity.Common.Range.{MapRange}
use kapacity.Common.Perms.{length-perm, every, every-perm, has-perm, Distinct-perm}
use kapacity.Pod.Data.{Pod}
use kapacity.Pod.Sorter.{Sorter, IsSorter}
use kapacity.Pod.Manager.{StateManager, collect, make_pod_list_by_names, select_pods_to_transfer}

abbrev pub is_pod : Option Pod → Bool
is_pod none = false
is_pod (some p) = true

abbrev pub name_of : Option Pod → String
name_of none = ""
name_of (some p) = p.name

abbrev pub names_of : List (Option Pod) → List String
names_of = map name_of

abbrev pub is_named : String → Option Pod → Bool
is_named n none = false
is_named n (some p) = p.name == n

-- The manager's name map has a pod of this name under it.
abbrev pub known : StateManager → String → Bool
known sm n = is_named n (find n sm.pod_name_map)

names_of-find :
    (sm : StateManager) (ns : List String)
    → every (known sm) ns ≡ true
    → (names_of (map (λ n. find n sm.pod_name_map) ns) ≡ ns)
      × (every is_pod (map (λ n. find n sm.pod_name_map) ns) ≡ true)
names_of-find sm [] h = (refl, refl)
names_of-find sm (n ∷ ns) h = step (find n sm.pod_name_map) h (names_of-find sm ns)
  where
    rest : List (Option Pod)
    rest = map (λ m. find m sm.pod_name_map) ns

    step :
        (q : Option Pod)
        → (is_named n q && every (known sm) ns) ≡ true
        → (every (known sm) ns ≡ true → (names_of rest ≡ ns) × (every is_pod rest ≡ true))
        → (name_of q ∷ names_of rest ≡ n ∷ ns) × ((is_pod q && every is_pod rest) ≡ true)
    step none h k = cc
    step (some p) h k = ground (arith, str_iff p.name n)

-- What is selected out of a set.
pub record Selected (target : ℕ) (candidates chosen : List String) : Type 0 where
  pub distinct : Distinct chosen
  pub among : (a : String) → has a chosen ≡ true → has a candidates ≡ true
  pub many : length chosen ≡ min target (length candidates)

module _ (n : String) (result names : List String) where
  insert_fresh :
      bit (has n result) + bit (has n (n ∷ names)) ≤ 1
      → length (insert n result) ≡ length result + 1
  unfolding has
  insert_fresh h = ground (arith, length-insert n result, beq_self n)

module _ (a n : String) (result names : List String) where
  insert_among :
      (has a (insert n result) || has a names) ≡ true → (has a result || has a (n ∷ names)) ≡ true
  unfolding has
  insert_among h = ground (arith, has-insert a n result)

  insert_apart :
      has n names ≡ false
      → bit (has a result) + bit (has a (n ∷ names)) ≤ 1
      → bit (has a (insert n result)) + bit (has a names) ≤ 1
  unfolding has
  insert_apart d h = ground (arith, has-insert a n result, str_iff a n)

abbrev Collects : ℕ → List (Option Pod) → List String → Go (List String) → Type 0
Collects t qs result r =
    (chosen : List String) × (r ≡ ok chosen)
    × Distinct chosen
    × ((a : String) → has a chosen ≡ true → (has a result || has a (names_of qs)) ≡ true)
    × (length chosen ≡ min t (length result + length qs))

collect-Collects :
    (t : ℕ) (qs : List (Option Pod)) (result : List String)
    → every is_pod qs ≡ true
    → Distinct (names_of qs)
    → Distinct result
    → ((a : String) → bit (has a result) + bit (has a (names_of qs)) ≤ 1)
    → length result < t
    → Collects t qs result (collect (pos t) qs result)
unfolding collect
collect-Collects t [] result h d r apart lt = (result, refl, r, λ a m. ground arith, omega arith)
collect-Collects t (none ∷ qs) result h d r apart lt = absurd (cc)
collect-Collects t (some p ∷ qs) result h d r apart lt =
    let names = insert p.name result in
    let longer = insert_fresh p.name result (names_of qs) (apart p.name) in
    elim (Bool-cases (eqb_ℤ (pos (length names)) (pos t))) [
      | inl e ↦ (
        names,
        rw e,
        insert-Distinct p.name result r,
        λ a m. insert_among a p.name result (names_of qs) (ground arith),
        ground (arith, longer),
      )
      | inr e ↦
          let (chosen, found, distinct, among, many) =
            collect-Collects t qs names h d.1 (insert-Distinct p.name result r)
              (λ a. insert_apart a p.name result (names_of qs) d.0 (apart a))
              (ground (arith, longer)) in
          (
            chosen,
            rw e found,
            distinct,
            λ a m. insert_among a p.name result (names_of qs) (among a m),
            omega (arith, many, longer),
          )
    ]

-- The sorter gives this result for some list of pods, of which none is nil.
abbrev pub Sorts : Sorter → Go (List (Option Pod)) → Type 0
Sorts sorter r = (xs : List (Option Pod)) × (every is_pod xs ≡ true) × (sorter.sort xs ≡ r)

-- A result that satisfies P, or an error or a panic that comes from the sorter.
abbrev pub Ensures : {A : Type 0} → Sorter → (A → Type 0) → Go A → Type 0
Ensures sorter P (ok a) = P a
Ensures sorter P (err e) = (x : Error) × Sorts sorter (err x)
Ensures sorter P panic = Sorts sorter panic

none_Selected :
    (t : ℕ) (candidates : List String) → min t (length candidates) ≡ 0 → Selected t candidates []
unfolding has
none_Selected t candidates h = record {
  distinct = tt;
  among = λ a m. absurd (cc);
  many = ground (arith);
}

turned_perm {ℓ} : {A : Type ℓ} (b : Bool) (qs : List A) → Perm (if b then reverse qs else qs) qs
turned_perm true qs = reverse_perm qs
turned_perm false qs = Perm.refl qs

bit_le : (b : Bool) → 0 + bit b ≤ 1
bit_le b = ground arith

length-names_of : (qs : List (Option Pod)) → length (names_of qs) ≡ length qs
length-names_of [] = refl
length-names_of (q ∷ qs) = omega (arith, length-names_of qs)

module _ (order : MapRange) {sorter : Sorter} (law : IsSorter sorter) (sm : StateManager) where
  -- The sorter is given pods.
  candidates_pods :
      (candidates : List String)
      → every (known sm) candidates ≡ true
      → every is_pod (make_pod_list_by_names order sorter sm candidates) ≡ true
  unfolding make_pod_list_by_names
  candidates_pods candidates k =
      (names_of-find sm (order.range candidates)
        (every-perm (known sm) (order.range_perm candidates) ∙ k)).1

  -- What the sorter returns, for candidates that the manager knows.
  sorted_lem :
      (candidates : List String) (qs : List (Option Pod))
      → Distinct candidates
      → every (known sm) candidates ≡ true
      → sorter.sort (make_pod_list_by_names order sorter sm candidates) ≡ ok qs
      → (every is_pod qs ≡ true) × Perm (names_of qs) candidates
  unfolding make_pod_list_by_names
  sorted_lem candidates qs d k e =
      let ranged = order.range_perm candidates in
      let (named, pods) =
        names_of-find sm (order.range candidates) (every-perm (known sm) ranged ∙ k) in
      let sorted = law.sort_perm _ qs e in
      (
        every-perm is_pod sorted ∙ pods,
        Perm.trans (Perm.map name_of sorted) (subst (λ l. Perm l candidates) (sym named) ranged),
      )

  -- The selection panics or fails only where the sorter does, and otherwise chooses the
  -- lesser of the target and the number of candidates.
  pub select_pods_lem :
      (t : ℕ) (up : Bool) (candidates : List String)
      → Distinct candidates
      → every (known sm) candidates ≡ true
      → Ensures sorter
          (Selected t candidates)
          (select_pods_to_transfer order sorter sm (pos t) up candidates)
  unfolding select_pods_to_transfer has
  select_pods_lem t up candidates d k =
      elim (Bool-cases (leb_ℤ (pos t) (pos 0) || eqb_ℤ (pos (length candidates)) (pos 0))) [
        | inl e ↦ rw e (none_Selected t candidates (ground arith))
        | inr e ↦ rw e (sorted (sorter.sort given) refl (ground arith))
      ]
    where
      given : List (Option Pod)
      given = make_pod_list_by_names order sorter sm candidates

      given_pods : every is_pod given ≡ true
      given_pods = candidates_pods candidates k

      chosen_Selected :
          (qs : List (Option Pod))
          → every is_pod qs ≡ true
          → Perm (names_of qs) candidates
          → 0 < t
          → Ensures sorter (Selected t candidates) (collect (pos t) qs [])
      chosen_Selected qs pods p lt =
          let (chosen, found, distinct, among, many) =
            collect-Collects t qs [] pods (Distinct-perm (Perm.symm p) d) tt
              (λ a. bit_le (has a (names_of qs))) lt in
          rw found (record {
            distinct = distinct;
            among = λ a m. sym (has-perm a p) ∙ among a m;
            many = omega (arith, many, length-perm p, length-names_of qs);
          })

      sorted :
          (r : Go (List (Option Pod)))
          → sorter.sort given ≡ r
          → 0 < t
          → Ensures sorter (Selected t candidates) (
              wrap_err "failed to sort candidate pods" [] r >>= λ qs.
              collect (pos t) (if up then reverse qs else qs) [])
      sorted (ok qs) e lt =
          let (pods, p) = sorted_lem candidates qs d k e in
          let turned = turned_perm up qs in
          chosen_Selected _ (every-perm is_pod turned ∙ pods)
            (Perm.trans (Perm.map name_of turned) p) lt
      sorted (err x) e lt = (x, (given, given_pods, e))
      sorted panic e lt = (given, given_pods, e)

pub Ensures-bind :
    {A B : Type 0} (sorter : Sorter) (P : A → Type 0) (Q : B → Type 0) (m : Go A) (f : A → Go B)
    → Ensures sorter P m
    → ((a : A) → P a → Ensures sorter Q (f a))
    → Ensures sorter Q (m >>= f)
Ensures-bind sorter P Q (ok a) f h k = k a h
Ensures-bind sorter P Q (err e) f h k = h
Ensures-bind sorter P Q panic f h k = h

pub Ensures-wrap_err :
    {A : Type 0} (sorter : Sorter) (P : A → Type 0) (s : String) (args : List String) (m : Go A)
    → Ensures sorter P m
    → Ensures sorter P (wrap_err s args m)
Ensures-wrap_err sorter P s args (ok a) h = h
Ensures-wrap_err sorter P s args (err e) h = h
Ensures-wrap_err sorter P s args panic h = h

pub Ensures-mono :
    {A : Type 0} (sorter : Sorter) (P Q : A → Type 0) (m : Go A)
    → ((a : A) → P a → Q a)
    → Ensures sorter P m
    → Ensures sorter Q m
Ensures-mono sorter P Q (ok a) k h = k a h
Ensures-mono sorter P Q (err e) k h = h
Ensures-mono sorter P Q panic k h = h
