-- ===== src/Crds/Reconciler.antt =====
-- pkg/reconciler/crds/crds.go. No pointer to an object is changed, so the object is trivial.
use Prim.Native.String.{◌++◌}
use knative_functions_contro.Common.{
  String, false, Option, none, some, Error, Result, ok, err, if◌then◌else◌, lookup_nil,
}
use knative_functions_contro.Kube.Objects.{ConfigMap, Service, CustomResourceDefinition}
use knative_functions_contro.Kube.Api.{
  get_config_map, create_config_map, get_crd, get_service, create_service, update_service, Env,
}
use knative_functions_contro.Kube.Action.{
  Action, pure, fail, lift, deref, catch, attempt, call, ◌>>=◌,
}
use knative_functions_contro.Kube.Libraries.{Libraries}
use knative_functions_contro.Resources.ConfigMap.{make_config_map}
use knative_functions_contro.Resources.Ksvc.{make_knative_service}

abbrev pub functions_namespace : String
functions_namespace = "knative-functions"

abbrev pub image_annotation : String
image_annotation = "functions.knative.dev/image"

abbrev pub error : String → Error
error text = record { message = text; not_found = false }

module _ {W : Type 0} (env : Env W) (libs : Libraries) where
  -- What reconcileConfig does with the answer of the API server.
  unfoldable pub found_config_map :
      String → String → Result ConfigMap → Action W (Unit {0}) ConfigMap
  found_config_map ns cmname (ok cm) = pure cm
  found_config_map ns cmname (err e) =
      if e.not_found
      then (do cm ← lift (make_config_map ns cmname); call env (create_config_map ns cm))
      else fail e

  unfoldable pub reconcile_config : String → Action W (Unit {0}) ConfigMap
  unfolding found_config_map
  reconcile_config function_name = do
    ns ← deref libs.system_namespace
    found ← attempt (call env (get_config_map ns ("config-function-" ++ function_name)))
    found_config_map ns ("config-function-" ++ function_name) found

  -- What reconcileService does with the lister's answer, for the service that it wants.
  unfoldable pub found_service : Service → Result Service → Action W (Unit {0}) Service
  found_service expected (ok service) =
      if libs.spec_equal expected.spec service.spec
      then pure service
      else catch
          (call env (update_service functions_namespace (record service { spec = expected.spec })))
          (λ e. fail (error ("Failed to update the function service: " ++ e.message)))
  found_service expected (err e) =
      if e.not_found
      then catch (call env (create_service functions_namespace expected))
          (λ x. fail (error ("Failed to create the function service: " ++ x.message)))
      else fail e

  -- reconcileService from the image annotation on.
  unfoldable pub with_image : String → ConfigMap → Option String → Action W (Unit {0}) Service
  unfolding found_service
  with_image function_name cm none =
      fail (error "Missing functions.knative.dev/image annotation on function CRD")
  with_image function_name cm (some image) = do
    found ← attempt (call env (get_service functions_namespace function_name))
    found_service (make_knative_service function_name cm.meta.resource_version image) found

  unfoldable pub reconcile_service : String → ConfigMap → Action W (Unit {0}) Service
  unfolding with_image
  reconcile_service function_name cm = do
    crd ←
        catch (call env (get_crd (function_name ++ ".functions.knative.dev")))
          (λ e. fail (error ("Failed to get function Custom Resource Definition: " ++ e.message)))
    with_image function_name cm (lookup_nil image_annotation crd.meta.annotations)

  unfoldable pub unless_deleted :
      CustomResourceDefinition → Option String → Action W (Unit {0}) (Unit {0})
  unfolding reconcile_config reconcile_service
  unless_deleted crd (some _) = pure tt
  unless_deleted crd none = do
    cm ← reconcile_config crd.plural
    service ← reconcile_service crd.plural cm
    pure tt

  -- (*Reconciler).reconcile
  unfoldable pub reconcile_crd : CustomResourceDefinition → Action W (Unit {0}) (Unit {0})
  unfolding unless_deleted
  reconcile_crd crd = unless_deleted crd crd.meta.deletion_timestamp

  -- What Reconcile does with the lister's answer.
  unfoldable pub found_crd : Result CustomResourceDefinition → Action W (Unit {0}) (Unit {0})
  unfolding reconcile_crd
  found_crd (ok crd) = reconcile_crd crd
  found_crd (err e) = if e.not_found then pure tt else fail e

  -- (*Reconciler).Reconcile
  unfoldable pub reconcile_name : String → Action W (Unit {0}) (Unit {0})
  unfolding found_crd
  reconcile_name name = do found ← attempt (call env (get_crd name)); found_crd found
