-- ===== src/Functions/Given.antt =====
-- What a step of pkg/reconciler/functions/functions.go that has returned has found.
use knative_functions_contro.Common.{String, ◌≡◌, ap}
use knative_functions_contro.Kube.Objects.{Route, Service}
use knative_functions_contro.Kube.Api.{Env, get_service}
use knative_functions_contro.Kube.Action.{State}
use knative_functions_contro.Kube.Inversion.{Returns, call-inv}
use knative_functions_contro.Kube.Libraries.{Libraries}
use knative_functions_contro.Duck.Types.{Function}
use knative_functions_contro.Functions.Reported.{initialized}
use knative_functions_contro.Functions.Seen.{IsServiceSeen, IsRouteSeen, reconcile_route-seen}
use knative_functions_contro.Functions.Status.{IsFramed}
use knative_functions_contro.Functions.Steps.{check_service, functions_namespace, reconcile_route}

pub IsFramed-initialized :
    (libs : Libraries) (before fn : Function) → fn ≡ initialized libs before → IsFramed before fn
IsFramed-initialized libs before fn e = record {
  same_type = ap (λ f. f.type_meta) e;
  same_meta = ap (λ f. f.meta) e;
  same_spec = ap (λ f. f.spec) e;
}

module _ {W : Type 0} (env : Env W) (libs : Libraries) (function_name : String) where
  pub check_service-inv :
      (s : State W Function) (svc : Service) (t : State W Function)
      → Returns (check_service env libs function_name) s svc t
      → IsServiceSeen env libs function_name svc
  unfolding check_service
  check_service-inv s svc t h =
      call-inv env (get_service functions_namespace function_name) s svc t h

  pub reconcile_route-inv :
      (before : Function) (s : State W Function) (route : Route) (t : State W Function)
      → IsFramed before s.object
      → Returns (reconcile_route env libs function_name) s route t
      → IsRouteSeen env libs function_name before route
  reconcile_route-inv before s route t framed h =
      (rw h at (
        (reconcile_route-seen env libs function_name (IsFramed before) before (λ fn e. e)).at s
          framed)).1
