-- ===== src/Webhook/Twice.antt =====
-- The pod webhook when it is called again with the pod that it returned.
use kapacity.Common.{
  Bool, true, false, ◌&&◌, String, List, [], ◌∷◌, ◌++◌, Option, none, some, if◌then◌else◌, ◌==◌,
  string_eq, ◌≡◌, refl, ap, sym, ◌∙◌, Bool-cases, inl, inr, Option-cases,
}
use kapacity.Common.Time.{Time}
use kapacity.Pod.Data.{Pod, PodCondition}
use kapacity.Pod.Util.{add_pod_condition, add_pod_readiness_gate, has_gate, get_pod_condition}
use kapacity.Webhook.{
  Request, gate_type, asks_for_gate, is_creation, is_status_update, with_gates, with_conditions,
  inject_readiness_gate, gate_condition, default_readiness_gate_status, mutate,
}

gate_there : (gates : List String) (type : String) → has_gate (gates ++ type ∷ []) type ≡ true
unfolding has_gate
gate_there [] type = rw ((string_eq.agrees type type).1 refl) refl
gate_there (g ∷ gates) type = elim (Bool-cases (g == type)) [
  | inl e ↦ rw e refl
  | inr e ↦ rw e (gate_there gates type)
]

gate_twice :
    (gates : List String) (type : String)
    → add_pod_readiness_gate (add_pod_readiness_gate gates type).0 type
      ≡ ((add_pod_readiness_gate gates type).0, false)
unfolding add_pod_readiness_gate
gate_twice gates type = elim (Bool-cases (has_gate gates type)) [
  | inl e ↦ rw (e, e) refl
  | inr e ↦ rw (e, gate_there gates type) refl
]

abbrev stamped : Time → PodCondition → PodCondition
stamped now c = record c { last_transition_time = now }

not_first :
    {A : Type 0} (b : Bool) (d : A) (r : Option A)
    → (if b then some d else r) ≡ none
    → (b ≡ false) × (r ≡ none)
not_first true d r e = cc e
not_first false d r e = (refl, e)

condition_there :
    (now : Time) (cs : List PodCondition) (c : PodCondition)
    → get_pod_condition cs c.type ≡ none
    → get_pod_condition (cs ++ stamped now c ∷ []) c.type ≡ some (stamped now c)
unfolding get_pod_condition
condition_there now [] c e = rw ((string_eq.agrees c.type c.type).1 refl) refl
condition_there now (d ∷ cs) c e =
    let others = not_first (d.type == c.type) d (get_pod_condition cs c.type) e in
    rw others.0 (condition_there now cs c others.1)

present :
    (now : Time) (cs : List PodCondition) (c old : PodCondition)
    → get_pod_condition cs c.type ≡ some old
    → add_pod_condition now cs c ≡ (cs, false)
unfolding add_pod_condition
present now cs c old e = rw (add_pod_condition, e) refl

absent :
    (now : Time) (cs : List PodCondition) (c : PodCondition)
    → get_pod_condition cs c.type ≡ none
    → add_pod_condition now cs c ≡ (cs ++ stamped now c ∷ [], true)
unfolding add_pod_condition
absent now cs c e = rw (add_pod_condition, e) refl

condition_twice :
    (now later : Time) (cs : List PodCondition) (c : PodCondition)
    → add_pod_condition later (add_pod_condition now cs c).0 c
      ≡ ((add_pod_condition now cs c).0, false)
condition_twice now later cs c = elim (Option-cases (get_pod_condition cs c.type)) [
  | inl e ↦
      rw (absent now cs c e)
        (present later (cs ++ stamped now c ∷ []) c (stamped now c) (condition_there now cs c e))
  | inr (old, e) ↦ rw (present now cs c old e) (present later cs c old e)
]

inject_twice :
    (req : Request) (pod : Pod)
    → inject_readiness_gate req (inject_readiness_gate req pod).0
      ≡ ((inject_readiness_gate req pod).0, false)
unfolding inject_readiness_gate
inject_twice req pod = elim (Bool-cases (is_creation req && asks_for_gate pod)) [
  | inl e ↦
      rw (e, e)
        (ap
          (with_gates (record pod {
            readiness_gates = (add_pod_readiness_gate pod.readiness_gates gate_type).0;
          }))
          (gate_twice pod.readiness_gates gate_type))
  | inr e ↦ rw (e, e) refl
]

default_twice :
    (now later : Time) (req : Request) (pod : Pod)
    → default_readiness_gate_status later req (default_readiness_gate_status now req pod).0
      ≡ ((default_readiness_gate_status now req pod).0, false)
unfolding default_readiness_gate_status
default_twice now later req pod = elim (Bool-cases (is_status_update req && asks_for_gate pod)) [
  | inl e ↦
      rw (e, e)
        (ap
          (with_conditions
            (record pod { conditions = (add_pod_condition now pod.conditions gate_condition).0 }))
          (condition_twice now later pod.conditions gate_condition))
  | inr e ↦ rw (e, e) refl
]

abbrev at_conditions : List PodCondition → Pod × Bool → Pod × Bool
at_conditions cs (pod, changed) = (record pod { conditions = cs }, changed)

inject_aside :
    (req : Request) (pod : Pod) (cs : List PodCondition)
    → inject_readiness_gate req (record pod { conditions = cs })
      ≡ at_conditions cs (inject_readiness_gate req pod)
unfolding inject_readiness_gate
inject_aside req pod cs = elim (Bool-cases (is_creation req && asks_for_gate pod)) [
  | inl e ↦ rw e refl
  | inr e ↦ rw e refl
]

default_aside :
    (now : Time) (req : Request) (pod : Pod)
    → (default_readiness_gate_status now req pod).0
      ≡ record pod { conditions = (default_readiness_gate_status now req pod).0.conditions }
unfolding default_readiness_gate_status
default_aside now req pod = elim (Bool-cases (is_status_update req && asks_for_gate pod)) [
  | inl e ↦ rw e refl
  | inr e ↦ rw e refl
]

inject_again :
    (now : Time) (req : Request) (pod : Pod)
    → inject_readiness_gate req pod ≡ (pod, false)
    → inject_readiness_gate req (default_readiness_gate_status now req pod).0
      ≡ ((default_readiness_gate_status now req pod).0, false)
inject_again now req pod e =
    let after = (default_readiness_gate_status now req pod).0 in
    ap (inject_readiness_gate req) (default_aside now req pod)
    ∙ inject_aside req pod after.conditions
    ∙ ap (at_conditions after.conditions) e
    ∙ ap (λ p. (p, false)) (sym (default_aside now req pod))

-- A pod that the webhook has changed is not changed again by the same request, at whatever time.
pub mutate_twice :
    (now later : Time) (req : Request) (pod : Pod)
    → mutate later req (mutate now req pod).0 ≡ ((mutate now req pod).0, false)
unfolding mutate
mutate_twice now later req pod =
    let injected = (inject_readiness_gate req pod).0 in
    rw (inject_again now req injected (inject_twice req pod))
      (rw (default_twice now later req injected) refl)
