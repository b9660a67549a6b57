-- ===== src/Crds/Repaired.antt =====
-- A worker of pkg/reconciler/functions brings the service up to the config map, whatever the reconciler
-- of pkg/reconciler/crds/crds.go has made of it.
use knative_functions_contro.Common.{ℕ}
use knative_functions_contro.Kube.Libraries.{Libraries}
use knative_functions_contro.Functions.Workers.Service.{failed, set_stage}
use knative_functions_contro.Crds.Alongside.{Cluster}

-- The reconcile of worker i has failed, and is tried again.
abbrev pub failing : ℕ → Cluster → Cluster
failing i c = record c {
  shared = record (c.shared) { workers = set_stage i failed c.shared.workers };
}
