-- ===== src/Functions/Calls.antt =====
-- The calls of each step of the reconciler of Functions.
use Prim.Native.String.{◌++◌}
use knative_functions_contro.Common.{
  String, refl, inl, inr, arith, Bool, true, false, Option, none, some, [], ◌∷◌, Error, Result, ok,
  err, Bool-cases, Result-cases, Dict, lookup_nil, ◌==◌,
}
use knative_functions_contro.Kube.Objects.{Route, Service, ConfigMap, Url}
use knative_functions_contro.Kube.Api.{Env, get_route, get_service, get_config_map}
use knative_functions_contro.Kube.Action.{actions}
use knative_functions_contro.Kube.Order.{
  reads_route, creates_route, reads_service, updates_service, reads_config_map, updates_config_map,
  Emits, kind, Emits-bind, Emits-get_object, Emits-call, Emits-attempt, Emits-pure, Emits-lift,
  Emits-deref, Emits-quiet, Emits-one,
}
use knative_functions_contro.Kube.Libraries.{Libraries, Value}
use knative_functions_contro.Duck.Types.{Function, FunctionStatus, config_map_annotation}
use knative_functions_contro.Resources.Route.{make_route, make_route_name}
use knative_functions_contro.Functions.Steps.{
  functions_namespace, or_empty, check_service, propagate_service_status_if_error, found_route,
  reconcile_route, propagate_route_status, save_version, reconcile_service,
}
use knative_functions_contro.Functions.Config.{
  set_entry, update_config, on_route, reconcile_config, save_config,
}
use knative_functions_contro.Functions.Reconciler.{mark_and_fail}

module _ {W : Type 0} (env : Env W) (libs : Libraries) (function_name : String) where
  pub check_service-Emits : Emits (reads_service ∷ []) (check_service env libs function_name)
  unfolding check_service kind
  check_service-Emits =
      Emits-call env (get_service functions_namespace function_name) reads_service [] refl

  pub propagate_service-Emits :
      (svc : Service) → Emits [] (propagate_service_status_if_error env libs function_name svc)
  unfolding propagate_service_status_if_error actions
  propagate_service-Emits svc = Emits-quiet [] _ (λ s. ground arith)

  found_route-Emits :
      (fn : Function) (r : Result Route)
      → Emits (creates_route ∷ []) (found_route env libs function_name fn r)
  unfolding found_route actions make_route kind
  found_route-Emits fn (ok route) = Emits-quiet _ _ (λ s. ground arith)
  found_route-Emits fn (err e) = elim (Bool-cases e.not_found) [
    | inl missing ↦ rw missing (Emits-one [] _ _ (λ s. inr (_, refl, refl)))
    | inr other ↦ rw other (Emits-quiet _ _ (λ s. refl))
  ]

  pub reconcile_route-Emits :
      Emits (creates_route ∷ reads_route ∷ []) (reconcile_route env libs function_name)
  unfolding reconcile_route kind
  reconcile_route-Emits =
      Emits-bind {ks = []} {ls = creates_route ∷ reads_route ∷ []} _ _ (Emits-get_object []) (λ fn.
        Emits-bind {ks = reads_route ∷ []} {ls = creates_route ∷ []} _ _
          (Emits-attempt _ (
            Emits-call env
              (get_route functions_namespace
                (make_route_name function_name fn.meta.name fn.meta.namespace))
              _ [] refl))
          (found_route-Emits fn))

  pub propagate_route-Emits :
      (route : Route) → Emits [] (propagate_route_status env libs function_name route)
  unfolding propagate_route_status actions
  propagate_route-Emits route = Emits-quiet [] _ (λ s. ground arith)

  save_version-Emits :
      (svc : Service) (v : String) (o : Option (Dict String))
      → Emits (updates_service ∷ []) (save_version env libs function_name svc v o)
  unfolding save_version actions kind
  save_version-Emits svc v none = Emits-quiet _ _ (λ s. refl)
  save_version-Emits svc v (some m) = Emits-one [] _ _ (λ s. inr (_, refl, refl))

  pub reconcile_service-Emits :
      (svc : Service) (cm : ConfigMap)
      → Emits (updates_service ∷ []) (reconcile_service env libs function_name svc cm)
  unfolding reconcile_service
  reconcile_service-Emits svc cm =
      elim (Bool-cases (
        or_empty (lookup_nil config_map_annotation svc.spec.annotations)
        == cm.meta.resource_version)) [
          | inl same ↦ rw same (Emits-pure _ svc)
          | inr other ↦ rw other (save_version-Emits svc _ _)
        ]

  save_config-Emits :
      (ns : String) (cm : ConfigMap) (m : Dict String) (entry : Option (Dict Value) × Bool)
      → Emits (updates_config_map ∷ []) (save_config env libs function_name ns cm m entry)
  unfolding save_config actions kind
  save_config-Emits ns cm m (config, false) = Emits-quiet _ _ (λ s. refl)
  save_config-Emits ns cm m (config, true) = elim (Result-cases (libs.marshal_config config)) [
    | inl (raw, e) ↦ rw e (Emits-one [] _ _ (λ s. inr (_, refl, refl)))
    | inr (x, e) ↦ rw e (Emits-quiet _ _ (λ s. refl))
  ]

  set_entry-Emits :
      (config : Option (Dict Value)) (u : Bool) (fn : Function) (key : Option Url)
      → Emits [] (set_entry env libs function_name config u fn key)
  unfolding set_entry actions
  set_entry-Emits config u fn none = Emits-quiet _ _ (λ s. refl)
  set_entry-Emits config u fn (some key) = Emits-quiet _ _ (λ s. ground arith)

  update_config-Emits :
      (ns : String) (cm : ConfigMap) (route : Route)
      → Emits (updates_config_map ∷ []) (update_config env libs function_name ns cm route)
  unfolding update_config
  update_config-Emits ns cm route =
      Emits-bind {ks = []} {ls = updates_config_map ∷ []} _ _ (Emits-get_object []) (λ fn.
        Emits-bind {ks = []} {ls = updates_config_map ∷ []} _ _ (Emits-lift [] _) (λ config.
          Emits-bind {ks = []} {ls = updates_config_map ∷ []} _ _ (Emits-deref [] _) (λ address.
            Emits-bind {ks = []} {ls = updates_config_map ∷ []} _ _
              (set_entry-Emits config _ fn address.url)
              (λ entry. save_config-Emits ns cm _ entry))))

  on_route-Emits :
      (ns : String) (cm : ConfigMap) (o : Option Route)
      → Emits (updates_config_map ∷ []) (on_route env libs function_name ns cm o)
  unfolding on_route
  on_route-Emits ns cm none = Emits-pure _ cm
  on_route-Emits ns cm (some route) = update_config-Emits ns cm route

  pub reconcile_config-Emits :
      (o : Option Route)
      → Emits
          (updates_config_map ∷ reads_config_map ∷ [])
          (reconcile_config env libs function_name o)
  unfolding reconcile_config kind
  reconcile_config-Emits o =
      Emits-bind {ks = []} {ls = updates_config_map ∷ reads_config_map ∷ []} _ _ (Emits-deref [] _)
        (λ ns.
          Emits-bind {ks = reads_config_map ∷ []} {ls = updates_config_map ∷ []} _ _
            (Emits-call env (get_config_map ns ("config-function-" ++ function_name)) _ [] refl)
            (λ cm. on_route-Emits ns cm o))

  pub mark_and_fail-Emits :
      {A : Type 0} (mark : Error → FunctionStatus → FunctionStatus) (e : Error)
      → Emits {W = W} {A = A} [] (mark_and_fail mark e)
  unfolding actions
  mark_and_fail-Emits mark e = Emits-quiet [] _ (λ s. refl)
