-- ===== src/Kube/Libraries.antt =====
-- The library functions that the reconcilers call: an interface, with what they document as laws.
use mathlib.Core.Option
use knative_functions_contro.Common.{
  String, ◌≡◌, Bool, false, Option, some, List, [], Dict, lookup, Result, ok,
}
use knative_functions_contro.Kube.Objects.{
  Condition, OwnerReference, GroupVersion, GroupVersionKind, ObjectMeta, ServiceSpec, Unstructured,
}
use knative_functions_contro.Duck.Types.{RawExtension, Function, FunctionStatus}
use knative_functions_contro.Kube.Conditions.{ConditionLib}

-- A JSON value that encoding/json has decoded into an interface{}, by its text.
pub record Json : Type 0 where
  pub text : String

-- A value of the configuration `map[string]interface{}`, by its dynamic type: nil, what
-- encoding/json decoded, or the `*runtime.RawExtension` that the reconciler stores.
pub data Value : Type 0 where
  nil_value : Value
  decoded : Json → Value
  raw_extension : Option RawExtension → Value

pub record Libraries : Type 0 where
  pub conditions : ConditionLib
  -- cache.SplitMetaNamespaceKey
  pub split_meta_namespace_key : String → Result (String × String)
  -- duck.FromUnstructured into a zero Function, whose error the source drops
  pub from_unstructured : Unstructured → Function
  -- json.Marshal of a Function, and Unstructured.UnmarshalJSON, whose error the source drops
  pub marshal_function : Function → Result String
  pub unmarshal_unstructured : String → Unstructured
  -- json.Unmarshal into a nil map (nil where the text is "null"), and json.Marshal of a map
  pub unmarshal_config : String → Result (Option (Dict Value))
  pub marshal_config : Option (Dict Value) → Result String
  -- equality.Semantic.DeepEqual, at the types that the source compares
  pub status_equal : FunctionStatus → FunctionStatus → Bool
  pub spec_equal : ServiceSpec → ServiceSpec → Bool
  pub value_equal : Value → Value → Bool
  -- the GetCondition of a Route's or a Service's status
  pub status_condition : List Condition → String → Option Condition
  -- GroupVersion.WithKind, metav1.NewControllerRef, metav1.IsControlledBy
  pub with_kind : GroupVersion → String → GroupVersionKind
  pub new_controller_ref : ObjectMeta → GroupVersionKind → OwnerReference
  pub is_controlled_by : ObjectMeta → ObjectMeta → Bool
  -- utils.GetClusterDomainName, and system.Namespace, which panics (`none`) if it is not set
  pub cluster_domain : String
  pub system_namespace : Option String

-- What the source relies on of encoding/json and of the semantic equality.
pub record JsonLaws (libs : Libraries) : Type 0 where
  -- the value that is read back for a value that was written
  pub read_value : Value → Value
  -- what Marshal has written for a map, Unmarshal reads entry by entry
  pub read_back :
      (m : Dict Value) (text : String)
      → libs.marshal_config (some m) ≡ ok text
      → (m' : Dict Value) × (libs.unmarshal_config text ≡ ok (some m'))
        × ((host : String) → lookup host m' ≡ Option.map read_value (lookup host m))
  -- the empty object is read as the empty map
  pub read_empty : libs.unmarshal_config "{}" ≡ ok (some [])
  -- a value that was read from JSON is read back as it is
  pub read_again :
      (text : String) (m : Dict Value) (host : String) (v : Value)
      → libs.unmarshal_config text ≡ ok (some m)
      → lookup host m ≡ some v
      → read_value v ≡ v
  -- Unmarshal decodes into nil, bool, float64, string, []interface{} and map[string]interface{}, and
  -- values of different types are never deeply equal
  pub read_differs :
      (text : String) (m : Dict Value) (host : String) (v : Value) (spec : Option RawExtension)
      → libs.unmarshal_config text ≡ ok (some m)
      → lookup host m ≡ some v
      → libs.value_equal v (raw_extension spec) ≡ false
