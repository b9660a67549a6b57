-- ===== src/Tests/Configs.antt =====
-- The theorems on the configuration, at concrete inputs.
use mathlib.Core.Option
use knative_functions_contro.Common.{
  String, ◌≡◌, refl, ap, sym, inl, inr, some, [], ◌∷◌, ◌==◌, if◌then◌else◌, Dict, lookup,
  lookup_nil, insert, ok, split_dots, panicked,
}
use knative_functions_contro.Kube.Objects.{ConfigMap}
use knative_functions_contro.Kube.Api.{update_config_map}
use knative_functions_contro.Kube.Libraries.{Value, decoded, raw_extension}
use knative_functions_contro.Resources.ConfigMap.{config_key}
use knative_functions_contro.Functions.Config.{default_config, host_key, update_config}
use knative_functions_contro.Functions.Entries.{config_text, update_config-stores, written}
use knative_functions_contro.Functions.ConfigErrors.{update_config_panics}
use knative_functions_contro.Functions.Writes.{Written, update_config-writes}
use knative_functions_contro.Functions.Rewrites.{update_config-rewrites}
use knative_functions_contro.Functions.Tables.{table}
use knative_functions_contro.Functions.Hosts.{has_no_dot}
use knative_functions_contro.Tests.Libraries.{
  encode, decode, hello, read_raw, test_host, test_json_laws, test_libraries,
}
use knative_functions_contro.Tests.Cluster.{
  test_address, test_config_map, test_env, test_route, test_url, start, steady,
}

abbrev spec_text : String
spec_text = "{\"reply\":1}"

update_config-stores_example :
    (cm' : ConfigMap) × ((update_config test_env test_libraries "echoes" "ns" test_config_map
        test_route
        (start steady hello)).1.calls
      ≡ update_config_map "ns" cm' ∷ [])
    × (cm'.meta ≡ test_config_map.meta)
    × ((j : String)
        → lookup_nil j cm'.contents
          ≡ (if config_key == j then some spec_text else lookup_nil j test_config_map.contents))
    × (m' : Dict Value) × (test_libraries.unmarshal_config (config_text cm') ≡ ok (some m'))
    × ((h : String)
        → lookup h m' ≡ (
            if test_host == h
            then some (test_json_laws.read_value (raw_extension hello.spec))
            else Option.map test_json_laws.read_value (lookup h [])))
unfolding encode decode lookup insert host_key split_dots
update_config-stores_example =
    update_config-stores test_env test_libraries "echoes" test_json_laws "ns" test_host spec_text
      test_config_map test_route test_address test_url [] (start steady hello) refl refl refl refl
      refl

-- The configuration is empty, and the host of the address has no dot.
update_config_panics_example :
    update_config test_env test_libraries "echoes" "ns" test_config_map
      (record test_route {
        status = record (test_route.status) {
          address = some (record { url = some (record { scheme = "http"; host = "localhost" }) });
        };
      })
      (start steady hello)
    ≡ (panicked, start steady hello)
unfolding decode lookup has_no_dot
update_config_panics_example =
    update_config_panics test_env test_libraries "echoes" "ns" test_config_map
      (record test_route {
        status = record (test_route.status) {
          address = some (record { url = some (record { scheme = "http"; host = "localhost" }) });
        };
      })
      (some []) (start steady hello) refl
      (inr (
        record { url = some (record { scheme = "http"; host = "localhost" }) },
        record { scheme = "http"; host = "localhost" },
        refl,
        refl,
        inl refl,
      ))

update_config-writes_example :
    Written test_libraries test_json_laws test_env "echoes" "ns" test_config_map test_route
      (start steady hello)
update_config-writes_example =
    update_config-writes test_libraries test_json_laws test_env "echoes" "ns" test_config_map
      test_route (start steady hello)

-- The config map that has the spec of the Function already.
abbrev stored_map : ConfigMap
stored_map = written test_config_map spec_text

update_config-rewrites_example :
    (cm' : ConfigMap) × ((update_config test_env test_libraries "echoes" "ns" stored_map test_route
        (start steady hello)).1.calls
      ≡ update_config_map "ns" cm' ∷ [])
    × (cm'.meta ≡ stored_map.meta)
    × ((h : String) → table test_libraries cm' h ≡ table test_libraries stored_map h)
unfolding encode decode lookup insert host_key split_dots default_config
update_config-rewrites_example =
    update_config-rewrites test_env test_libraries test_json_laws "echoes" "ns" test_host spec_text
      stored_map test_route test_address test_url
      ((test_host, decoded (record { text = spec_text })) ∷ []) (start steady hello) refl refl refl
      refl refl (ap some (sym (read_raw (record { raw = spec_text }))))
