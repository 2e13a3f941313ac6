-- ===== src/Util/PodLister.antt =====
-- pkg/util/client.go: the pod lister over a client, which is a parameter.
use kapacity.Common.{String, List, [], ◌∷◌, Option, none, some, Go, ok, ◌>>=◌}
use kapacity.Api.Meta.{NamespacedName}
use kapacity.Pod.Data.{Pod}
use kapacity.Util.Selector.{Selector}

-- What is called of client.Client; a list is of one namespace, or of all.
pub record PodClient : Type 0 where
  pub list : Option String → Selector → Go (List Pod)
  pub get : NamespacedName → Go Pod

pub record CtrlPodNamespaceLister : Type 0 where
  pub client : PodClient
  pub namespace : String

-- A pointer to each item, in order: the pods themselves here.
unfoldable pub convert_pod_list_to_pointer_slice : List Pod → List Pod
convert_pod_list_to_pointer_slice [] = []
convert_pod_list_to_pointer_slice (p ∷ pods) = p ∷ convert_pod_list_to_pointer_slice pods

unfoldable pub list_pods_of_all : PodClient → Selector → Go (List Pod)
list_pods_of_all client selector = do
  pods ← client.list none selector
  ok (convert_pod_list_to_pointer_slice pods)

unfoldable pub lister_for : PodClient → (namespace : String) → CtrlPodNamespaceLister
lister_for client namespace = record { client = client; namespace = namespace }

unfoldable pub list_pods_of_namespace : CtrlPodNamespaceLister → Selector → Go (List Pod)
list_pods_of_namespace l selector = do
  pods ← l.client.list (some l.namespace) selector
  ok (convert_pod_list_to_pointer_slice pods)

unfoldable pub get_pod_of_namespace : CtrlPodNamespaceLister → (name : String) → Go Pod
get_pod_of_namespace l name = l.client.get (record { namespace = l.namespace; name = name })
