-- ===== src/Crds/Services.antt =====
-- reconcileService of pkg/reconciler/crds/crds.go, by what the cluster holds.
use Prim.Native.String.{◌++◌}
use knative_functions_contro.Common.{
  String, ◌≡◌, arith, true, some, ◌∷◌, Error, Result, ok, err, lookup_nil, returned, failed,
}
use knative_functions_contro.Kube.Objects.{ConfigMap, Service, CustomResourceDefinition}
use knative_functions_contro.Kube.Api.{Call, get_crd, get_service, create_service, Env}
use knative_functions_contro.Kube.Action.{State, actions, catch, call, fail}
use knative_functions_contro.Kube.Libraries.{Libraries}
use knative_functions_contro.Resources.Ksvc.{make_knative_service}
use knative_functions_contro.Crds.Reconciler.{
  functions_namespace, image_annotation, error, reconcile_service,
}

module _ {W : Type 0} (env : Env W) (libs : Libraries) where
  pub calls_of_catch :
      (c : Call) (f : Error → Error) (s : State W (Unit {0}))
      → (catch (call env c) (λ e. fail (f e)) s).1.calls ≡ c ∷ s.calls
  unfolding actions
  calls_of_catch c f s = ground arith

  pub reconcile_service_equal :
      (function_name image : String) (cm : ConfigMap) (crd : CustomResourceDefinition)
      (service : Service) (w1 w2 : W) (s : State W (Unit {0}))
      → env.answer (get_crd (function_name ++ ".functions.knative.dev")) s.world ≡ (ok crd, w1)
      → lookup_nil image_annotation crd.meta.annotations ≡ some image
      → env.answer (get_service functions_namespace function_name) w1 ≡ (ok service, w2)
      → libs.spec_equal
          (make_knative_service function_name cm.meta.resource_version image).spec
          service.spec
        ≡ true
      → reconcile_service env libs function_name cm s ≡ (
        returned service,
        record s {
          world = w2;
          calls =
              get_service functions_namespace function_name
              ∷ get_crd (function_name ++ ".functions.knative.dev")
              ∷ s.calls;
        },
      )
  unfolding reconcile_service actions
  reconcile_service_equal function_name image cm crd service w1 w2 s ha hi hs same =
      rw (ha, hi, hs, same)

  -- The definition read has an image annotation and the service is not found: the wanted service is
  -- created, and what the server answers is returned, an error with its text behind a prefix.
  pub reconcile_service-creates :
      (function_name image : String) (cm : ConfigMap) (crd : CustomResourceDefinition) (e : Error)
      (r : Result Service) (w1 w2 w3 : W) (s : State W (Unit {0}))
      → env.answer (get_crd (function_name ++ ".functions.knative.dev")) s.world ≡ (ok crd, w1)
      → lookup_nil image_annotation crd.meta.annotations ≡ some image
      → env.answer (get_service functions_namespace function_name) w1 ≡ (err e, w2)
      → e.not_found ≡ true
      → env.answer
          (create_service functions_namespace
            (make_knative_service function_name cm.meta.resource_version image))
          w2
        ≡ (r, w3)
      → reconcile_service env libs function_name cm s ≡ (
        (elim r [
          | ok service ↦ returned service
          | err x ↦ failed (error ("Failed to create the function service: " ++ x.message))
        ]),
        record s {
          world = w3;
          calls =
              create_service functions_namespace
                (make_knative_service function_name cm.meta.resource_version image)
              ∷ get_service functions_namespace function_name
              ∷ get_crd (function_name ++ ".functions.knative.dev")
              ∷ s.calls;
        },
      )
  unfolding reconcile_service actions
  reconcile_service-creates function_name image cm crd e (ok service) w1 w2 w3 s ha hi hs missing
        hc =
      rw (ha, hi, hs, missing, hc)
  reconcile_service-creates function_name image cm crd e (err x) w1 w2 w3 s ha hi hs missing hc =
      rw (ha, hi, hs, missing, hc)
