-- ===== src/Util/Finalizer.antt =====
-- The operations of controllerutil on the finalizer of controllers/common.go, which are a
-- parameter of the controllers.
use kapacity.Common.{Bool}
use kapacity.Api.Meta.{ObjectMeta}

pub record Finalizers : Type 0 where
  pub contains : ObjectMeta → Bool
  pub add : ObjectMeta → ObjectMeta
  pub remove : ObjectMeta → ObjectMeta
