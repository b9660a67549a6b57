-- ===== src/Resources.antt =====
-- pkg/reconciler/functions/resources and pkg/reconciler/crds/resources: the objects that the
-- reconcilers create.
pub mod Route
pub mod ConfigMap
pub mod Ksvc
pub mod RouteName
