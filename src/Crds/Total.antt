-- ===== src/Crds/Total.antt =====
-- Reconcile of pkg/reconciler/crds/crds.go cannot panic, once the system's namespace is set.
use Prim.Native.String.{◌++◌}
use knative_functions_contro.Common.{String, ◌≡◌, Option, none, some, Result, ok, err, lookup_nil}
use knative_functions_contro.Kube.Objects.{ConfigMap, Service, CustomResourceDefinition}
use knative_functions_contro.Kube.Api.{
  Env, create_config_map, create_service, get_config_map, get_crd, get_service, update_service,
}
use knative_functions_contro.Kube.Panics.{
  NeverPanics, bind-NeverPanics, catch-NeverPanics, attempt-NeverPanics, if-NeverPanics,
  pure-NeverPanics, deref-NeverPanics, fail-NeverPanics, lift-NeverPanics, call-NeverPanics,
}
use knative_functions_contro.Kube.Libraries.{Libraries}
use knative_functions_contro.Resources.ConfigMap.{make_config_map}
use knative_functions_contro.Resources.Ksvc.{make_knative_service}
use knative_functions_contro.Crds.Reconciler.{
  error, functions_namespace, image_annotation, found_config_map, reconcile_config, found_service,
  with_image, reconcile_service, unless_deleted, reconcile_crd, found_crd, reconcile_name,
}

module _ {W : Type 0} (env : Env W) (libs : Libraries) (ns : String)
    (is_set : libs.system_namespace ≡ some ns) where
  found_config_map-NeverPanics :
      (ns' name : String) (r : Result ConfigMap)
      → NeverPanics (found_config_map env libs ns' name r)
  unfolding found_config_map
  found_config_map-NeverPanics ns' name (ok cm) = pure-NeverPanics cm
  found_config_map-NeverPanics ns' name (err e) =
      if-NeverPanics _ e.not_found _
        (bind-NeverPanics _ _ (lift-NeverPanics (make_config_map ns' name))
          (λ cm. call-NeverPanics env (create_config_map ns' cm)))
        (fail-NeverPanics e)

  reconcile_config-NeverPanics :
      (function_name : String) → NeverPanics (reconcile_config env libs function_name)
  unfolding reconcile_config
  reconcile_config-NeverPanics function_name =
      bind-NeverPanics _ _ (deref-NeverPanics libs.system_namespace is_set) (λ ns'.
        bind-NeverPanics _ _
          (attempt-NeverPanics _
            (call-NeverPanics env (get_config_map ns' ("config-function-" ++ function_name))))
          (found_config_map-NeverPanics ns' ("config-function-" ++ function_name)))

  found_service-NeverPanics :
      (expected : Service) (r : Result Service) → NeverPanics (found_service env libs expected r)
  unfolding found_service
  found_service-NeverPanics expected (ok old) =
      if-NeverPanics _ (libs.spec_equal expected.spec old.spec) _ (pure-NeverPanics old) (
        catch-NeverPanics _ (λ x. error ("Failed to update the function service: " ++ x.message))
          (call-NeverPanics env
            (update_service functions_namespace (record old { spec = expected.spec }))))
  found_service-NeverPanics expected (err e) =
      if-NeverPanics _ e.not_found _
        (catch-NeverPanics _ (λ x. error ("Failed to create the function service: " ++ x.message))
          (call-NeverPanics env (create_service functions_namespace expected)))
        (fail-NeverPanics e)

  with_image-NeverPanics :
      (function_name : String) (cm : ConfigMap) (o : Option String)
      → NeverPanics (with_image env libs function_name cm o)
  unfolding with_image
  with_image-NeverPanics function_name cm none = fail-NeverPanics _
  with_image-NeverPanics function_name cm (some image) =
      bind-NeverPanics _ _
        (attempt-NeverPanics _
          (call-NeverPanics env (get_service functions_namespace function_name)))
        (found_service-NeverPanics
          (make_knative_service function_name cm.meta.resource_version image))

  reconcile_crd-NeverPanics :
      (def : CustomResourceDefinition) (o : Option String)
      → NeverPanics (unless_deleted env libs def o)
  unfolding unless_deleted reconcile_service
  reconcile_crd-NeverPanics def (some t) = pure-NeverPanics tt
  reconcile_crd-NeverPanics def none =
      bind-NeverPanics _ _ (reconcile_config-NeverPanics def.plural) (λ cm.
        bind-NeverPanics _ _
          (bind-NeverPanics _ _
            (catch-NeverPanics _
              (λ e. error ("Failed to get function Custom Resource Definition: " ++ e.message))
              (call-NeverPanics env (get_crd (def.plural ++ ".functions.knative.dev"))))
            (λ crd.
              with_image-NeverPanics def.plural cm
                (lookup_nil image_annotation crd.meta.annotations)))
          (λ service. pure-NeverPanics tt))

  found_crd-NeverPanics : (r : Result CustomResourceDefinition) → NeverPanics (found_crd env libs r)
  unfolding found_crd reconcile_crd
  found_crd-NeverPanics (ok def) = reconcile_crd-NeverPanics def def.meta.deletion_timestamp
  found_crd-NeverPanics (err e) =
      if-NeverPanics _ e.not_found _ (pure-NeverPanics tt) (fail-NeverPanics e)

  pub reconcile_name-NeverPanics : (name : String) → NeverPanics (reconcile_name env libs name)
  unfolding reconcile_name
  reconcile_name-NeverPanics name =
      bind-NeverPanics _ _ (attempt-NeverPanics _ (call-NeverPanics env (get_crd name)))
        found_crd-NeverPanics
