-- ===== src/Functions/Kept.antt =====
-- The steps of pkg/reconciler/functions/functions.go that leave the Function alone.
use knative_functions_contro.Common.{String, ◌≡◌, arith, Option}
use knative_functions_contro.Kube.Objects.{ConfigMap, Route, Service}
use knative_functions_contro.Kube.Api.{Env}
use knative_functions_contro.Kube.Action.{State, actions}
use knative_functions_contro.Kube.Libraries.{Libraries}
use knative_functions_contro.Duck.Types.{Function}
use knative_functions_contro.Resources.Route.{make_route}
use knative_functions_contro.Functions.Config.{reconcile_config}
use knative_functions_contro.Functions.Steps.{
  check_service, found_route, reconcile_route, reconcile_service,
}

module _ {W : Type 0} (env : Env W) (libs : Libraries) (function_name : String) where
  pub reconcile_service-keeps :
      (svc : Service) (cm : ConfigMap) (s : State W Function)
      → (reconcile_service env libs function_name svc cm s).1.object ≡ s.object
  unfolding reconcile_service actions
  reconcile_service-keeps svc cm s = ground arith

  pub reconcile_config-keeps :
      (o : Option Route) (s : State W Function)
      → (reconcile_config env libs function_name o s).1.object ≡ s.object
  unfolding reconcile_config actions
  reconcile_config-keeps o s = ground arith

  pub check_service-keeps :
      (s : State W Function) → (check_service env libs function_name s).1.object ≡ s.object
  unfolding check_service actions
  check_service-keeps s = ground arith

  pub reconcile_route-keeps :
      (s : State W Function) → (reconcile_route env libs function_name s).1.object ≡ s.object
  unfolding reconcile_route found_route make_route actions
  reconcile_route-keeps s = ground arith
