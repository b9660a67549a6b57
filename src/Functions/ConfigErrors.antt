-- ===== src/Functions/ConfigErrors.antt =====
-- reconcileConfig of pkg/reconciler/functions/functions.go: the branches that write nothing.
use knative_functions_contro.Common.{
  String, ◌≡◌, refl, ap, ◌∙◌, ◌⊎◌, inl, inr, Bool, true, false, Option, none, some, Dict,
  lookup_nil, Error, ok, err, panicked, returned, failed,
}
use knative_functions_contro.Kube.Objects.{Route, ConfigMap, Url, Addressable}
use knative_functions_contro.Kube.Api.{Env}
use knative_functions_contro.Kube.Action.{State, actions, deref, ◌>>=◌}
use knative_functions_contro.Kube.Libraries.{Libraries, Value, raw_extension}
use knative_functions_contro.Duck.Types.{Function}
use knative_functions_contro.Resources.ConfigMap.{config_key}
use knative_functions_contro.Functions.Config.{
  default_config, host_key, is_stale, put_entry, set_entry, update_config,
}
use knative_functions_contro.Functions.Entries.{config_text, text_or_default, text-default_config}
use knative_functions_contro.Functions.Hosts.{has_no_dot, host_key_dotless}

-- A config map that has a configuration is not changed by the defaults.
unchanged-default_config :
    (o : Option (Dict String)) (text : String)
    → lookup_nil config_key o ≡ some text
    → (default_config o).1 ≡ false
unfolding default_config
unchanged-default_config none text h = cc
unchanged-default_config (some m) text h = rw (h, default_config)

module _ {W : Type 0} (env : Env W) (libs : Libraries) (function_name : String) where
  set_entry_panics :
      (config : Option (Dict Value)) (u : Bool) (fn : Function) (key : Url) (s : State W Function)
      → (has_no_dot key.host ≡ true) ⊎ (config ≡ none)
      → set_entry env libs function_name config u fn (some key) s ≡ (panicked, s)
  unfolding set_entry is_stale actions
  set_entry_panics config u fn key s (inl h) = rw (host_key_dotless key.host h)
  set_entry_panics config u fn key s (inr e) = rw e (after_host (host_key key.host))
    where
      after_host :
          (o : Option String)
          → (deref {W = W} {O = Function} o >>= λ host.
                deref (put_entry libs host (raw_extension fn.spec) u none))
              s
            ≡ (panicked, s)
      after_host none = refl
      after_host (some host) = refl

  -- The route's status has no address; or its address has a URL, and either the host of that URL has
  -- no dot, or the configuration is JSON's null. Then the configuration, though it can be parsed,
  -- makes the code panic, with no call made.
  pub update_config_panics :
      (ns : String) (cm : ConfigMap) (route : Route) (config : Option (Dict Value))
      (s : State W Function)
      → libs.unmarshal_config (config_text cm) ≡ ok config
      → (route.status.address ≡ none)
        ⊎ ((a : Addressable) × (key : Url) × (route.status.address ≡ some a)
            × (a.url ≡ some key)
            × ((has_no_dot key.host ≡ true) ⊎ (config ≡ none)))
      → update_config env libs function_name ns cm route s ≡ (panicked, s)
  unfolding update_config actions
  update_config_panics ns cm route config s hr (inl h) = rw (text-default_config, hr, h)
  update_config_panics ns cm route config s hr (inr (a, key, ha, hu, h)) = rw (
    text-default_config,
    hr,
    ha,
    hu,
    set_entry_panics config (default_config cm.contents).1 s.object key s h,
  )

  -- A configuration that cannot be parsed is left alone: the error is returned and no call is made.
  pub update_config_unparsable :
      (ns : String) (cm : ConfigMap) (route : Route) (e : Error) (s : State W Function)
      → libs.unmarshal_config (config_text cm) ≡ err e
      → update_config env libs function_name ns cm route s ≡ (failed e, s)
  unfolding update_config actions
  update_config_unparsable ns cm route e s h = rw (text-default_config, h)

  -- Where the address of the route has no URL and the config map has a configuration, that can be
  -- parsed, the config map is returned as it is and no call is made.
  pub update_config_no_url :
      (ns text : String) (cm : ConfigMap) (route : Route) (config : Option (Dict Value))
      (a : Addressable) (s : State W Function)
      → lookup_nil config_key cm.contents ≡ some text
      → libs.unmarshal_config text ≡ ok config
      → route.status.address ≡ some a
      → a.url ≡ none
      → update_config env libs function_name ns cm route s ≡ (returned cm, s)
  unfolding update_config actions
  update_config_no_url ns text cm route config a s ht hr ha hu =
      let read : libs.unmarshal_config (config_text cm) ≡ ok config =
        ap (λ o. libs.unmarshal_config (text_or_default o)) ht ∙ hr in
      rw (text-default_config, read, ha, hu, unchanged-default_config cm.contents text ht)
