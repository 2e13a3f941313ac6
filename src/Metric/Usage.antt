-- ===== src/Metric/Usage.antt =====
-- The sum of the usages of a pod's containers in metricsapi/provider.go.
use kapacity.Common.{
  String, List, [], ◌∷◌, Option, none, some, Any, inl, inr, ◌≡◌, refl, Option-cases,
}
use kapacity.Common.Int.{ℤ, pos, ◌+ℤ◌}
use kapacity.Common.Dict.{find}
use kapacity.Metric.Api.{ContainerMetrics, sum_usage, pod_usage}

-- The usages of all containers, which each of them has, as a list.
abbrev pub Usages : (resource : String) → List ContainerMetrics → List ℤ → Type 0
Usages resource [] [] = Unit
Usages resource (c ∷ cs) (v ∷ vs) = (find resource c.usage ≡ some v) × Usages resource cs vs
Usages resource _ _ = ⊥

unfoldable pub total : ℤ → List ℤ → ℤ
total sum [] = sum
total sum (v ∷ vs) = total (sum +ℤ v) vs

abbrev pub Lacks : (resource : String) → ContainerMetrics → Type 0
Lacks resource c = find resource c.usage ≡ none

abbrev pub IsSum : (resource : String) → ℤ → List ContainerMetrics → Option ℤ → Type 0
IsSum resource sum cs none = Any (Lacks resource) cs
IsSum resource sum cs (some t) = (vs : List ℤ) × Usages resource cs vs × (t ≡ total sum vs)

added :
    (resource : String) (sum v : ℤ) (c : ContainerMetrics) (cs : List ContainerMetrics)
    (o : Option ℤ)
    → find resource c.usage ≡ some v
    → IsSum resource (sum +ℤ v) cs o
    → IsSum resource sum (c ∷ cs) o
unfolding total
added resource sum v c cs none e h = inr h
added resource sum v c cs (some t) e h = (v ∷ h.0, (e, h.1), h.2)

sum_usage-IsSum :
    (resource : String) (sum : ℤ) (cs : List ContainerMetrics)
    → IsSum resource sum cs (sum_usage resource sum cs)
unfolding sum_usage total
sum_usage-IsSum resource sum [] = ([], tt, refl)
sum_usage-IsSum resource sum (c ∷ cs) = elim (Option-cases (find resource c.usage)) [
  | inl e ↦ rw (sum_usage, e) (inl e)
  | inr (v, e) ↦
      rw (sum_usage, e)
        (added resource sum v c cs (sum_usage resource (sum +ℤ v) cs) e
          (sum_usage-IsSum resource (sum +ℤ v) cs))
]

abbrev pub IsPodUsage : (resource : String) → List ContainerMetrics → Option ℤ → Type 0
IsPodUsage resource [] o = o ≡ none
IsPodUsage resource (c ∷ cs) o = IsSum resource (pos 0) (c ∷ cs) o

-- The usage of a pod is the sum over all its containers, if each of them reports the resource;
-- a pod without a container, or with one that does not report it, has none.
pub pod_usage-IsPodUsage :
    (resource : String) (cs : List ContainerMetrics)
    → IsPodUsage resource cs (pod_usage resource cs)
unfolding pod_usage
pod_usage-IsPodUsage resource [] = refl
pod_usage-IsPodUsage resource (c ∷ cs) = sum_usage-IsSum resource (pos 0) (c ∷ cs)
