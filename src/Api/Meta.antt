-- ===== src/Api/Meta.antt =====
-- The metadata and conditions of metav1, target references, and conditions set in a list
-- (SetConditionInList of pkg/util/apimachinery.go).
pub mod Settled
pub mod Owner
use Prim.Native.String.{◌++◌}
use native.Mathlib.Decide.{ℕ_discrete}
use kapacity.Common.{String, List, [], ◌∷◌, Option, if◌then◌else◌, ◌==◌, string_eq, String-discrete}
use kapacity.Common.Int.{ℤ, pos}
use kapacity.Common.Time.{Time, zero_time}

pub record ObjectMeta : Type 0 where
  pub namespace : String
  pub name : String
  pub uid : String
  pub generation : ℤ
  pub deletion_timestamp : Option Time
  pub finalizers : List String

-- types.NamespacedName
pub record NamespacedName : Type 0 where
  pub namespace : String
  pub name : String

-- `NamespacedName.String()`
abbrev pub key_text : NamespacedName → String
key_text n = n.namespace ++ "/" ++ n.name

-- CrossVersionObjectReference of k8s.io/api/autoscaling/v2.
pub record TargetRef : Type 0 where
  pub api_version : String
  pub kind : String
  pub name : String

pub TargetRef-discrete : Discrete TargetRef
TargetRef-discrete = hlevel (String-discrete, ℕ_discrete)

pub record Condition : Type 0 where
  pub type : String
  pub status : String
  pub observed_generation : ℤ
  pub last_transition_time : Time
  pub reason : String
  pub message : String

pub Condition-discrete : Discrete Condition
Condition-discrete = hlevel (String-discrete, ℕ_discrete)

-- The update of the condition that was found or appended.
pub update_condition : Time → Condition → String → ℤ → String → String → Condition
update_condition now c status generation reason message = record c {
  status = status;
  observed_generation = generation;
  last_transition_time = if c.status == status then c.last_transition_time else now;
  reason = reason;
  message = message;
}

abbrev blank_condition : String → Condition
blank_condition type = record {
  type = type;
  status = "";
  observed_generation = pos 0;
  last_transition_time = zero_time;
  reason = "";
  message = "";
}

unfoldable pub set_condition_in_list :
    Time → List Condition → String → String → ℤ → String → String → List Condition
unfolding update_condition
set_condition_in_list now [] type status generation reason message =
    update_condition now (blank_condition type) status generation reason message ∷ []
set_condition_in_list now (c ∷ cs) type status generation reason message =
    if c.type == type
    then update_condition now c status generation reason message ∷ cs
    else c ∷ set_condition_in_list now cs type status generation reason message
