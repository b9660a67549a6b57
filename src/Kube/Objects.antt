-- ===== src/Kube/Objects.antt =====
-- The fields of the Kubernetes and Knative objects that the controller reads or writes. A pointer
-- that can be nil is an `Option`, and so is a map that can be nil.
use knative_functions_contro.Common.{ℕ, String, Bool, Option, List, Dict}

-- knative.dev/pkg/apis.URL
pub record Url : Type 0 where
  pub scheme : String
  pub host : String

-- duckv1beta1.Addressable
pub record Addressable : Type 0 where
  pub url : Option Url

-- corev1.ConditionStatus
pub data ConditionStatus : Type 0 where
  is_true is_false is_unknown : ConditionStatus

-- apis.Condition. The field LastTransitionTime is left out: the condition library sets it, the code
-- never reads it, and the semantic equality of Kubernetes holds all its values equal.
pub record Condition : Type 0 where
  pub type : String
  pub status : ConditionStatus
  pub severity : String
  pub reason : String
  pub message : String

-- metav1.OwnerReference
pub record OwnerReference : Type 0 where
  pub api_version : String
  pub kind : String
  pub name : String
  pub uid : String
  pub controller : Bool

-- schema.GroupVersion, schema.GroupVersionKind, schema.GroupVersionResource
pub record GroupVersion : Type 0 where
  pub group : String
  pub version : String

pub record GroupVersionKind : Type 0 where
  pub group : String
  pub version : String
  pub kind : String

pub record GroupVersionResource : Type 0 where
  pub group : String
  pub version : String
  pub resource : String

-- metav1.TypeMeta
pub record TypeMeta : Type 0 where
  pub api_version : String
  pub kind : String

-- metav1.ListMeta
pub record ListMeta : Type 0 where
  pub self_link : String
  pub resource_version : String
  pub continue_token : String
  pub remaining_item_count : Option ℕ

-- metav1.ObjectMeta
pub record ObjectMeta : Type 0 where
  pub name : String
  pub namespace : String
  pub uid : String
  pub resource_version : String
  pub generation : ℕ
  pub deletion_timestamp : Option String
  pub labels : Option (Dict String)
  pub annotations : Option (Dict String)
  pub owner_references : List OwnerReference

-- corev1.ConfigMap
pub record ConfigMap : Type 0 where
  pub type_meta : TypeMeta
  pub meta : ObjectMeta
  pub contents : Option (Dict String)

-- servingv1beta1.TrafficTarget, RouteStatus, Route
pub record TrafficTarget : Type 0 where
  pub configuration_name : String
  pub latest_revision : Option Bool
  pub percent : ℕ

pub record RouteStatus : Type 0 where
  pub conditions : List Condition
  pub url : Option Url
  pub address : Option Addressable

pub record Route : Type 0 where
  pub type_meta : TypeMeta
  pub meta : ObjectMeta
  pub traffic : List TrafficTarget
  pub status : RouteStatus

-- corev1.VolumeMount, Container, Volume (with a ConfigMap for its source)
pub record VolumeMount : Type 0 where
  pub name : String
  pub mount_path : String
  pub sub_path : String

pub record Container : Type 0 where
  pub image : String
  pub volume_mounts : List VolumeMount

pub record Volume : Type 0 where
  pub name : String
  pub config_map_name : String

-- servingv1beta1.ServiceSpec: the annotations of its template and the template's pod, and in
-- `other_fields` all that MakeKnativeService leaves empty and the server may fill in.
pub record ServiceSpec : Type 0 where
  pub annotations : Option (Dict String)
  pub containers : List Container
  pub volumes : List Volume
  pub other_fields : Dict String

pub record Service : Type 0 where
  pub type_meta : TypeMeta
  pub meta : ObjectMeta
  pub spec : ServiceSpec
  pub conditions : List Condition

-- apiextensionsv1beta1.CustomResourceDefinition
pub record CustomResourceDefinition : Type 0 where
  pub meta : ObjectMeta
  pub group : String
  pub version : String
  pub plural : String

-- unstructured.Unstructured, by its JSON text
pub record Unstructured : Type 0 where
  pub json : String

-- An ObjectMeta whose fields are all at Go's zero values.
abbrev pub empty_meta : ObjectMeta
empty_meta = record {
  name = "";
  namespace = "";
  uid = "";
  resource_version = "";
  generation = 0;
  deletion_timestamp = Option.none;
  labels = Option.none;
  annotations = Option.none;
  owner_references = List.[];
}
