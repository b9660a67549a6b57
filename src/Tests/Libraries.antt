-- ===== src/Tests/Libraries.antt =====
-- Libraries for the tests, and that their JSON behaves as documented. Their codec of configurations
-- knows the empty map, and maps with the one host "hello.functions".
use mathlib.Core.Option
use knative_functions_contro.Common.{
  String, ◌≡◌, refl, ap, sym, arith, Bool, true, false, not, ◌&&◌, ◌||◌, Option, none, some, List,
  [], ◌∷◌, ◌==◌, eq_iff, eq_refl, if◌then◌else◌, Dict, lookup, lookup_nil, Error, Result, ok, err,
}
use knative_functions_contro.Kube.Objects.{
  Condition, ConditionStatus, is_true, is_false, is_unknown, OwnerReference, ObjectMeta, empty_meta,
}
use knative_functions_contro.Kube.Libraries.{
  Value, nil_value, decoded, raw_extension, Libraries, JsonLaws,
}
use knative_functions_contro.Duck.Types.{RawExtension, Function, config_map_annotation}
use knative_functions_contro.Tests.Conditions.{find, test_conditions}

abbrev pub test_error : Error
test_error = record { message = "refused"; not_found = false }

abbrev pub test_host : String
test_host = "hello.functions"

unfoldable pub encode : Option (Dict Value) → Result String
encode none = ok "null"
encode (some []) = ok "{}"
encode (some ((host, raw_extension (some r)) ∷ [])) =
    if (host == test_host) && not ((r.raw == "{}") || (r.raw == "null"))
    then ok r.raw
    else err test_error
encode (some _) = err test_error

unfoldable pub decode : String → Result (Option (Dict Value))
decode text =
    if text == "null"
    then ok none
    else if text == "{}"
    then ok (some [])
    else ok (some ((test_host, decoded (record { text = text })) ∷ []))

unfoldable pub same_value : Value → Value → Bool
same_value (decoded a) (decoded b) = a.text == b.text
same_value (raw_extension (some a)) (raw_extension (some b)) = a.raw == b.raw
same_value nil_value nil_value = true
same_value _ _ = false

abbrev pub same_version : Option String → Option String → Bool
same_version none none = true
same_version (some v) (some w) = v == w
same_version _ _ = false

pub same_version_refl : (o : Option String) → same_version o o ≡ true
same_version_refl none = refl
same_version_refl (some v) = eq_refl v

pub same_version-eq : (o p : Option String) → same_version o p ≡ true → o ≡ p
same_version-eq none none h = refl
same_version-eq none (some w) h = cc h
same_version-eq (some v) none h = cc h
same_version-eq (some v) (some w) h = ap some ((eq_iff v w).0 h)

abbrev same_status : ConditionStatus → ConditionStatus → Bool
same_status is_true is_true = true
same_status is_false is_false = true
same_status is_unknown is_unknown = true
same_status _ _ = false

unfoldable pub same_conditions : List Condition → List Condition → Bool
same_conditions [] [] = true
same_conditions (a ∷ rest) (b ∷ others) =
    (a.type == b.type)
    && same_status a.status b.status
    && (a.message == b.message)
    && same_conditions rest others
same_conditions _ _ = false

unfoldable pub is_controlled : List OwnerReference → String → Bool
is_controlled [] uid = false
is_controlled (o ∷ rest) uid = (o.controller && (o.uid == uid)) || is_controlled rest uid

abbrev pub test_meta : ObjectMeta
test_meta = record empty_meta { name = "hello"; namespace = "default"; uid = "1"; generation = 3 }

abbrev pub hello : Function
hello = record {
  type_meta = record { api_version = "functions.knative.dev/v1alpha1"; kind = "Echo" };
  meta = test_meta;
  spec = some (record { raw = "{\"reply\":1}" });
  status = record { observed_generation = 0; conditions = []; address = none; url = none };
}

unfoldable pub split_key : String → Result (String × String)
split_key key = if key == "default/hello" then ok ("default", "hello") else err test_error

abbrev pub test_libraries : Libraries
test_libraries = record {
  conditions = test_conditions;
  split_meta_namespace_key = split_key;
  from_unstructured = λ u. record hello { spec = some (record { raw = u.json }) };
  marshal_function = λ fn. ok fn.meta.name;
  unmarshal_unstructured = λ text. record { json = text };
  unmarshal_config = decode;
  marshal_config = encode;
  status_equal = λ a b. same_conditions a.conditions b.conditions;
  spec_equal = λ a b.
      same_version (lookup_nil config_map_annotation a.annotations)
        (lookup_nil config_map_annotation b.annotations);
  value_equal = same_value;
  status_condition = λ cs t. find t cs;
  with_kind = λ gv kind. record { group = gv.group; version = gv.version; kind = kind };
  new_controller_ref = λ meta gvk. record {
    api_version = gvk.group;
    kind = gvk.kind;
    name = meta.name;
    uid = meta.uid;
    controller = true;
  };
  is_controlled_by = λ object owner. is_controlled object.owner_references owner.uid;
  cluster_domain = "cluster.local";
  system_namespace = some "knative-functions";
}

abbrev read : Value → Value
read (raw_extension (some r)) = decoded (record { text = r.raw })
read v = v

read_back :
    (m : Dict Value) (text : String)
    → encode (some m) ≡ ok text
    → (m' : Dict Value) × (decode text ≡ ok (some m'))
      × ((host : String) → lookup host m' ≡ Option.map read (lookup host m))
unfolding encode decode lookup
read_back [] text e = let same : "{}" ≡ text = cc e in ([], ap decode (sym same), λ host. refl)
read_back ((h, raw_extension (some r)) ∷ []) text e = (
  (test_host, decoded (record { text = r.raw })) ∷ [],
  ground (arith, e, eq_iff text "null", eq_iff text "{}", eq_iff r.raw "null", eq_iff r.raw "{}"),
  λ host. ground (arith, e, eq_iff h test_host),
)
read_back ((h, raw_extension none) ∷ []) text e = cc
read_back ((h, nil_value) ∷ []) text e = cc
read_back ((h, decoded j) ∷ []) text e = cc
read_back ((h, v) ∷ e1 ∷ m) text e = ground (arith, e)

read_differs :
    (text : String) (m : Dict Value) (host : String) (v : Value) (spec : Option RawExtension)
    → decode text ≡ ok (some m)
    → lookup host m ≡ some v
    → same_value v (raw_extension spec) ≡ false
unfolding decode lookup same_value
read_differs text m host v spec h found = ground (arith, h, found)

read_again :
    (text : String) (m : Dict Value) (host : String) (v : Value)
    → decode text ≡ ok (some m)
    → lookup host m ≡ some v
    → read v ≡ v
unfolding decode lookup
read_again text m host v h found = ground (arith, h, found)

pub test_json_laws : JsonLaws test_libraries
test_json_laws = record {
  read_value = read;
  read_empty = unfold decode in refl;
  read_again = read_again;
  read_back = read_back;
  read_differs = read_differs;
}

pub read_raw :
    (r : RawExtension)
    → test_json_laws.read_value (raw_extension (some r)) ≡ decoded (record { text = r.raw })
unfolding test_json_laws
read_raw r = refl
