-- ===== src/Duck/Types.antt =====
-- pkg/apis/duck/v1alpha1/function.go and register.go
use knative_functions_contro.Common.{ℕ, String, Option, List}
use knative_functions_contro.Kube.Objects.{
  Url, Addressable, Condition, GroupVersion, TypeMeta, ListMeta, ObjectMeta,
}

abbrev pub config_map_annotation : String
config_map_annotation = "functions.knative.dev/configmap-version"

abbrev pub group_name : String
group_name = "functions.knative.dev"

abbrev pub scheme_group_version : GroupVersion
scheme_group_version = record { group = group_name; version = "v1alpha1" }

-- runtime.RawExtension, by its JSON text
pub record RawExtension : Type 0 where
  pub raw : String

-- The embedded duckv1beta1.Status gives the first two fields.
pub record FunctionStatus : Type 0 where
  pub observed_generation : ℕ
  pub conditions : List Condition
  pub address : Option Addressable
  pub url : Option Url

pub record Function : Type 0 where
  pub type_meta : TypeMeta
  pub meta : ObjectMeta
  pub spec : Option RawExtension
  pub status : FunctionStatus

pub record FunctionList : Type 0 where
  pub type_meta : TypeMeta
  pub meta : ListMeta
  pub items : List Function
