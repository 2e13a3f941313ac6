-- ===== src/Api/Meta/Owner.antt =====
-- NewControllerRef of pkg/util/apimachinery.go. The text of the group version and the kind of an
-- object are parameters.
use kapacity.Common.{Bool, true, String}
use kapacity.Api.Meta.{ObjectMeta}

-- metav1.OwnerReference
pub record OwnerReference : Type 0 where
  pub api_version : String
  pub kind : String
  pub name : String
  pub uid : String
  pub controller : Bool
  pub block_owner_deletion : Bool

unfoldable pub new_controller_ref : (api_version kind : String) → ObjectMeta → OwnerReference
new_controller_ref api_version kind o = record {
  api_version = api_version;
  kind = kind;
  name = o.name;
  uid = o.uid;
  controller = true;
  block_owner_deletion = true;
}
