-- ===== src/Functions/Rewrites.antt =====
-- reconcileConfig of pkg/reconciler/functions/functions.go for a Function whose spec is stored already.
use knative_functions_contro.Common.{
  String, ◌≡◌, ap, ◌∙◌, arith, some, ◌∷◌, eq_iff, Dict, insert, ok,
}
use knative_functions_contro.Kube.Objects.{Route, ConfigMap, Url, Addressable}
use knative_functions_contro.Kube.Api.{Env, update_config_map}
use knative_functions_contro.Kube.Action.{State}
use knative_functions_contro.Kube.Libraries.{Libraries, Value, raw_extension, JsonLaws}
use knative_functions_contro.Duck.Types.{Function}
use knative_functions_contro.Functions.Config.{host_key, update_config}
use knative_functions_contro.Functions.Entries.{config_text, update_config-stores}
use knative_functions_contro.Functions.Tables.{table, parsed, table_again}

-- The route's address has a URL whose host gives a key; the configuration in the config map is a map,
-- which with the Function's spec under the key can be serialised; and what is read from the config map
-- under the key is the spec already, as JSON reads it back. Then the config map is updated
-- nevertheless, with the metadata that it had, and every entry that is read from the new one is the
-- one that was read before.
pub update_config-rewrites :
    {W : Type 0} (env : Env W) (libs : Libraries) (laws : JsonLaws libs)
    (function_name ns host raw : String) (cm : ConfigMap) (route : Route) (a : Addressable)
    (key : Url) (m : Dict Value) (s : State W Function)
    → route.status.address ≡ some a
    → a.url ≡ some key
    → host_key key.host ≡ some host
    → libs.unmarshal_config (config_text cm) ≡ ok (some m)
    → libs.marshal_config (some (insert host (raw_extension s.object.spec) m)) ≡ ok raw
    → table libs cm host ≡ some (laws.read_value (raw_extension s.object.spec))
    → (cm' : ConfigMap) × ((update_config env libs function_name ns cm route s).1.calls
        ≡ update_config_map ns cm' ∷ s.calls)
      × (cm'.meta ≡ cm.meta)
      × ((h : String) → table libs cm' h ≡ table libs cm h)
update_config-rewrites env libs laws function_name ns host raw cm route a key m s ha hu hh read
      written stored =
    let (cm', made, same_meta, _, m', read', entries) =
      update_config-stores env libs function_name laws ns host raw cm route a key m s ha hu hh read
        written in
    (
      cm',
      made,
      same_meta,
      λ h.
          ap (λ r. parsed r h) read'
          ∙ entries h
          ∙ ground (arith, eq_iff host h, stored, table_again libs laws cm m h read),
    )
