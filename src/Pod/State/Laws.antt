-- ===== src/Pod/State/Laws.antt =====
-- What the state of a pod is after it was set, what the classification holds, and which changes
-- the watch predicate lets pass.
use kapacity.Common.{
  ℕ, ◌+◌, String, ◌≡◌, ◌≢◌, refl, ap, Bool, true, false, ◌&&◌, List, [], ◌∷◌, ◌++◌, none, some,
  if◌then◌else◌, string_eq, arith, ok, length, select, Option-cases, inl, inr, ◌∙◌,
}
use mathlib.Core.List.{append_assoc, append-nil}
use native.Mathlib.Nat.{zero-add}
use kapacity.Common.Dict.{GoMap, str_iff, find, put, find-put, find-drop, text_at, entries, remove}
use kapacity.Pod.Data.{Pod, PodState, online, cutoff, standby, deleted, label_state}
use kapacity.Pod.Util.{is_pod_running}
use kapacity.Pod.State.{
  get_state, set_state, set_label, state_of_label, state_changed, ByState, classify_pod,
  classify_from, filter_and_classify_by_running_state,
}

text_at-remove : (m : GoMap String) → text_at label_state (remove label_state m) ≡ ""
unfolding find
text_at-remove none = refl
text_at-remove (some m) = simp find-drop

text_at-put :
    (l : String) (m : List (String × String)) → text_at label_state (some (put label_state l m)) ≡ l
text_at-put l m = simp find-put

set_label_lem :
    (p : Pod) (l : String)
    → set_label p l ≡ ok (record p { labels = some (put label_state l (entries p.labels)) })
unfolding set_label
set_label_lem p l = elim (Option-cases p.labels) [ inl e ↦ rw e refl | inr (m, e) ↦ rw e refl ]

-- A pod's state may be set to any but deleted, without a panic, and is then read back.
pub get_state-set_state :
    (p : Pod) (s : PodState) → s ≢ deleted → (q : Pod) × (set_state p s ≡ ok q) × (get_state q ≡ s)
unfolding get_state set_state
get_state-set_state p online h = (
  record p { labels = remove label_state p.labels },
  refl,
  ap state_of_label (text_at-remove p.labels),
)
get_state-set_state p cutoff h =
    (_, set_label_lem p "Cutoff", ap state_of_label (text_at-put "Cutoff" (entries p.labels)))
get_state-set_state p standby h =
    (_, set_label_lem p "Standby", ap state_of_label (text_at-put "Standby" (entries p.labels)))
get_state-set_state p deleted h = absurd (h refl)

-- A change that the watch predicate drops changes neither whether the pod is running nor, for a
-- running pod, its state.
pub state_changed_complete :
    (old new : Pod)
    → state_changed old new ≡ false
    → (is_pod_running old ≡ is_pod_running new)
      × (is_pod_running old ≡ true → get_state old ≡ get_state new)
unfolding state_changed get_state
state_changed_complete old new h =
    ground (arith, str_iff (text_at label_state old.labels) (text_at label_state new.labels))

-- A test for one state.
abbrev pub is_state : PodState → PodState → Bool
is_state online online = true
is_state cutoff cutoff = true
is_state standby standby = true
is_state deleted deleted = true
is_state _ _ = false

-- The running pods of one state, in order.
abbrev pub running_in : PodState → List Pod → List Pod
running_in s = select (λ p. is_pod_running p && is_state (get_state p) s)

-- One round, seen from the rest of the list.
classify_pod_lem :
    (p : Pod) (m : ByState (List Pod)) (n : ℕ) (a b c d k : List Pod)
    → let r = classify_pod p (m, n) in
      ◌≡◌ {A = ByState (List Pod) × ℕ}
        (
          record {
            of_online = r.0.of_online ++ a;
            of_cutoff = r.0.of_cutoff ++ b;
            of_standby = r.0.of_standby ++ c;
            of_deleted = r.0.of_deleted ++ d;
          },
          r.1 + length k,
        )
        (
          record {
            of_online =
                m.of_online
                ++ (if is_pod_running p && is_state (get_state p) online then p ∷ a else a);
            of_cutoff =
                m.of_cutoff
                ++ (if is_pod_running p && is_state (get_state p) cutoff then p ∷ b else b);
            of_standby =
                m.of_standby
                ++ (if is_pod_running p && is_state (get_state p) standby then p ∷ c else c);
            of_deleted =
                m.of_deleted
                ++ (if is_pod_running p && is_state (get_state p) deleted then p ∷ d else d);
          },
          n + length (if is_pod_running p then p ∷ k else k),
        )
unfolding classify_pod
classify_pod_lem p m n a b c d k = ground (
  arith,
  append_assoc m.of_online (p ∷ []) a,
  append_assoc m.of_cutoff (p ∷ []) b,
  append_assoc m.of_standby (p ∷ []) c,
  append_assoc m.of_deleted (p ∷ []) d,
)

-- The classification of the loop, added to what it held before.
classify_from_lem :
    (pods : List Pod) (m : ByState (List Pod)) (n : ℕ)
    → classify_from pods (m, n) ≡ (
      record {
        of_online = m.of_online ++ running_in online pods;
        of_cutoff = m.of_cutoff ++ running_in cutoff pods;
        of_standby = m.of_standby ++ running_in standby pods;
        of_deleted = m.of_deleted ++ running_in deleted pods;
      },
      n + length (select is_pod_running pods),
    )
unfolding classify_from
classify_from_lem [] m n = ground (
  arith,
  append-nil m.of_online,
  append-nil m.of_cutoff,
  append-nil m.of_standby,
  append-nil m.of_deleted,
)
classify_from_lem (p ∷ pods) m n =
    classify_from_lem pods (classify_pod p (m, n)).0 (classify_pod p (m, n)).1
    ∙ classify_pod_lem p m n (running_in online pods) (running_in cutoff pods)
        (running_in standby pods) (running_in deleted pods) (select is_pod_running pods)

-- FilterAndClassifyByRunningState puts each running pod into the list of its state, in the order
-- given, and no other pod anywhere; its total is the number of running pods.
pub filter_and_classify_lem :
    (pods : List Pod)
    → filter_and_classify_by_running_state pods ≡ (
      record {
        of_online = running_in online pods;
        of_cutoff = running_in cutoff pods;
        of_standby = running_in standby pods;
        of_deleted = running_in deleted pods;
      },
      length (select is_pod_running pods),
    )
unfolding filter_and_classify_by_running_state
filter_and_classify_lem pods = classify_from_lem pods _ 0 ∙ rw zero-add
