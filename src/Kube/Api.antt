-- ===== src/Kube/Api.antt =====
-- The calls that the reconcilers make of the API server, of the listers' caches and of the event
-- recorder, and the environment that answers them.
use knative_functions_contro.Common.{String, Result}
use knative_functions_contro.Kube.Objects.{
  ConfigMap, Route, Service, CustomResourceDefinition, Unstructured,
}

pub data Call : Type 0 where
  -- dynamicClient.Namespace(ns).Get(name), .UpdateStatus(object)
  get_function : String → String → Call
  update_function_status : String → Unstructured → Call
  -- routeLister.Routes(ns).Get(name), servingClient...Routes(ns).Create(route)
  get_route : String → String → Call
  create_route : String → Route → Call
  -- serviceLister.Services(ns).Get(name), servingClient...Services(ns).Create, .Update
  get_service : String → String → Call
  create_service : String → Service → Call
  update_service : String → Service → Call
  -- kubeClient.CoreV1().ConfigMaps(ns).Get(name), .Create, .Update
  get_config_map : String → String → Call
  create_config_map : String → ConfigMap → Call
  update_config_map : String → ConfigMap → Call
  -- crdLister.Get(name)
  get_crd : String → Call
  -- Recorder.Event(object, Warning, reason, message), for the object of that name
  warning_event : String → String → String → Call

abbrev pub Reply : Call → Type 0
Reply (get_function _ _) = Unstructured
Reply (update_function_status _ _) = Unstructured
Reply (get_route _ _) = Route
Reply (create_route _ _) = Route
Reply (get_service _ _) = Service
Reply (create_service _ _) = Service
Reply (update_service _ _) = Service
Reply (get_config_map _ _) = ConfigMap
Reply (create_config_map _ _) = ConfigMap
Reply (update_config_map _ _) = ConfigMap
Reply (get_crd _) = CustomResourceDefinition
Reply (warning_event _ _ _) = Unit {0}

-- The environment: it answers each call by a value or an error, and the world moves on, by the call
-- itself and by whatever else happens in the cluster.
pub record Env (W : Type 0) : Type 0 where
  pub answer : (c : Call) → W → Result (Reply c) × W
