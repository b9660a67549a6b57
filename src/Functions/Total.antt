-- ===== src/Functions/Total.antt =====
-- The steps of pkg/reconciler/functions/functions.go that cannot panic.
use knative_functions_contro.Common.{String, none, some, Option, Error, Result, ok, err}
use knative_functions_contro.Kube.Objects.{Condition, Route, Service}
use knative_functions_contro.Kube.Api.{Env, create_route, get_route, get_service}
use knative_functions_contro.Kube.Panics.{
  NeverPanics, bind-NeverPanics, attempt-NeverPanics, if-NeverPanics, pure-NeverPanics,
  fail-NeverPanics, lift-NeverPanics, call-NeverPanics, modify_object-NeverPanics,
  get_object-NeverPanics,
}
use knative_functions_contro.Kube.Libraries.{Libraries}
use knative_functions_contro.Duck.Types.{Function, FunctionStatus}
use knative_functions_contro.Resources.Route.{make_route, make_route_name}
use knative_functions_contro.Functions.Steps.{
  check_service, found_route, functions_namespace, is_condition_true, judge_route, judge_service,
  reconcile_route,
}
use knative_functions_contro.Functions.Reconciler.{mark_and_fail}
use knative_functions_contro.Functions.Steps.{with_status}

pub mark_and_fail-NeverPanics :
    {W A : Type 0} (mark : Error → FunctionStatus → FunctionStatus) (e : Error)
    → NeverPanics {W = W} {O = Function} {A = A} (mark_and_fail mark e)
mark_and_fail-NeverPanics mark e =
    bind-NeverPanics _ _ (modify_object-NeverPanics (with_status (mark e)))
      (λ _. fail-NeverPanics e)

module _ {W : Type 0} (env : Env W) (libs : Libraries) (function_name : String) where
  pub check_service-NeverPanics : NeverPanics (check_service env libs function_name)
  unfolding check_service
  check_service-NeverPanics = call-NeverPanics env (get_service functions_namespace function_name)

  found_route-NeverPanics :
      (fn : Function) (r : Result Route) → NeverPanics (found_route env libs function_name fn r)
  unfolding found_route make_route
  found_route-NeverPanics fn (ok route) =
      if-NeverPanics _ (libs.is_controlled_by route.meta fn.meta) _ (pure-NeverPanics route)
        (fail-NeverPanics _)
  found_route-NeverPanics fn (err e) =
      if-NeverPanics _ e.not_found _
        (bind-NeverPanics _ _ (lift-NeverPanics _)
          (λ route. call-NeverPanics env (create_route functions_namespace route)))
        (fail-NeverPanics e)

  pub reconcile_route-NeverPanics : NeverPanics (reconcile_route env libs function_name)
  unfolding reconcile_route
  reconcile_route-NeverPanics = bind-NeverPanics _ _ get_object-NeverPanics (λ fn.
      bind-NeverPanics _ _
        (attempt-NeverPanics _ (
          call-NeverPanics env (
            get_route functions_namespace
              (make_route_name function_name fn.meta.name fn.meta.namespace))))
        (found_route-NeverPanics fn))

  pub judge_route-NeverPanics :
      (o : Option Condition) → NeverPanics (judge_route env libs function_name o)
  unfolding judge_route
  judge_route-NeverPanics none =
      bind-NeverPanics _ _ (modify_object-NeverPanics _) (λ _. fail-NeverPanics _)
  judge_route-NeverPanics (some c) =
      if-NeverPanics _ (is_condition_true c) _ (modify_object-NeverPanics _)
        (bind-NeverPanics _ _ (modify_object-NeverPanics _) (λ _. fail-NeverPanics _))

  pub judge_service-NeverPanics :
      (svc : Service) (o : Option Condition)
      → NeverPanics (judge_service env libs function_name svc o)
  unfolding judge_service
  judge_service-NeverPanics svc none =
      bind-NeverPanics _ _ (modify_object-NeverPanics _) (λ _. fail-NeverPanics _)
  judge_service-NeverPanics svc (some c) =
      if-NeverPanics _ (is_condition_true c) _ (pure-NeverPanics tt)
        (bind-NeverPanics _ _ (modify_object-NeverPanics _) (λ _. fail-NeverPanics _))
