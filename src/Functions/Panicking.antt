-- ===== src/Functions/Panicking.antt =====
-- Where reconcile of pkg/reconciler/functions/functions.go can panic.
use Prim.Native.String.{◌++◌}
use knative_functions_contro.Common.{
  String, ◌≡◌, ◌==◌, refl, sym, ap, ◌∙◌, ◌⊎◌, inl, inr, Bool, none, some, Option, Bool-cases, ok,
  Dict, insert,
}
use knative_functions_contro.Kube.Objects.{Addressable, ConfigMap, Route, Service, Url}
use knative_functions_contro.Kube.Api.{Call, Env, get_config_map, update_config_map, update_service}
use knative_functions_contro.Kube.Action.{State, pure}
use knative_functions_contro.Kube.Inversion.{IsAnswer, call-inv, deref-inv, lift-inv}
use knative_functions_contro.Kube.Panics.{
  NeverPanics, bind-NeverPanics, if-NeverPanics, pure-NeverPanics, lift-NeverPanics,
  call-NeverPanics, get_object-NeverPanics,
}
use knative_functions_contro.Kube.Panicking.{
  PanicsAt, NeverPanics-PanicsAt, bind-panics, deref-panics, if-panics,
}
use knative_functions_contro.Kube.Libraries.{Libraries, Value}
use knative_functions_contro.Duck.Types.{Function}
use knative_functions_contro.Resources.ConfigMap.{config_key}
use knative_functions_contro.Functions.Config.{
  default_config, host_key, put_entry, is_stale, save_config, set_entry, update_config, on_route,
  reconcile_config,
}
use knative_functions_contro.Functions.Entries.{config_text, text-default_config}
use knative_functions_contro.Functions.ServiceSync.{template_version}
use knative_functions_contro.Functions.Steps.{reconcile_service, save_version, with_version}

module _ {W : Type 0} (env : Env W) (libs : Libraries) (function_name : String) where
  save_version-panics :
      (svc : Service) (version : String) (o : Option (Dict String)) (s t : State W Function)
      → PanicsAt (save_version env libs function_name svc version o) s t
      → o ≡ none
  unfolding save_version
  save_version-panics svc version none s t h = refl
  save_version-panics svc version (some m) s t h = absurd (
      NeverPanics-PanicsAt _ s t
        (call-NeverPanics env (update_service svc.meta.namespace (with_version svc version m))) h)

  -- The annotations of the service's template are a nil map.
  pub reconcile_service-panics :
      (svc : Service) (cm : ConfigMap) (s t : State W Function)
      → PanicsAt (reconcile_service env libs function_name svc cm) s t
      → svc.spec.annotations ≡ none
  unfolding reconcile_service
  reconcile_service-panics svc cm s t h =
      elim (if-panics (template_version svc == cm.meta.resource_version) (pure svc) _ s t h) [
        | inl (same, kept) ↦ absurd (NeverPanics-PanicsAt _ s t (pure-NeverPanics svc) kept)
        | inr (differs, it) ↦
            save_version-panics svc cm.meta.resource_version svc.spec.annotations s t it
      ]

  put_entry-none :
      (host : String) (value : Value) (update : Bool) (config : Option (Dict Value))
      → put_entry libs host value update config ≡ none
      → config ≡ none
  unfolding put_entry
  put_entry-none host value update none h = refl
  put_entry-none host value update (some m) h =
      elim (Bool-cases (is_stale libs host value (some m))) [
        | inl stale ↦ let it = rw stale at h in cc it
        | inr fresh ↦ let it = rw fresh at h in cc it
      ]

  -- The host has no two parts, or the configuration is a nil map.
  abbrev pub IsEntryless : Route → Option (Dict Value) → Type 0
  IsEntryless route config =
      (a : Addressable) × (key : Url) × (route.status.address ≡ some a)
      × (a.url ≡ some key)
      × ((host_key key.host ≡ none) ⊎ (config ≡ none))

  set_entry-panics :
      (config : Option (Dict Value)) (update : Bool) (fn : Function) (o : Option Url)
      (s t : State W Function)
      → PanicsAt (set_entry env libs function_name config update fn o) s t
      → (key : Url) × (o ≡ some key) × ((host_key key.host ≡ none) ⊎ (config ≡ none))
  unfolding set_entry
  set_entry-panics config update fn none s t h =
      absurd (NeverPanics-PanicsAt _ s t (pure-NeverPanics (config, update)) h)
  set_entry-panics config update fn (some key) s t h = (
    key,
    refl,
    elim (bind-panics _ _ s t h) [
      | inl out ↦ inl (deref-panics (host_key key.host) s t out)
      | inr (host, u, got, rest) ↦
          inr (put_entry-none host _ update config (deref-panics _ u t rest))
    ],
  )

  save_config-NeverPanics :
      (ns : String) (cm : ConfigMap) (m : Dict String) (entry : Option (Dict Value) × Bool)
      → NeverPanics (save_config env libs function_name ns cm m entry)
  unfolding save_config
  save_config-NeverPanics ns cm m (config, update) =
      if-NeverPanics _ update _
        (bind-NeverPanics _ _ (lift-NeverPanics (libs.marshal_config config)) (λ raw.
          call-NeverPanics env
            (update_config_map ns (record cm { contents = some (insert config_key raw m) }))))
        (pure-NeverPanics cm)

  -- The route's status has no address, or its address has a URL for which there is no entry.
  abbrev pub IsUnentered : ConfigMap → Route → Type 0
  IsUnentered cm route =
      (route.status.address ≡ none)
      ⊎ ((config : Option (Dict Value)) × (libs.unmarshal_config (config_text cm) ≡ ok config)
          × IsEntryless route config)

  update_config-panics :
      (ns : String) (cm : ConfigMap) (route : Route) (s t : State W Function)
      → PanicsAt (update_config env libs function_name ns cm route) s t
      → IsUnentered cm route
  unfolding update_config
  update_config-panics ns cm route s t h = elim (bind-panics _ _ s t h) [
    | inl out ↦ absurd (NeverPanics-PanicsAt _ s t get_object-NeverPanics out)
    | inr (fn, s1, _, h1) ↦ elim (bind-panics _ _ s1 t h1) [
      | inl out ↦ absurd (NeverPanics-PanicsAt _ s1 t (lift-NeverPanics _) out)
      | inr (config, s2, read, h2) ↦ elim (bind-panics _ _ s2 t h2) [
        | inl out ↦ inl (deref-panics route.status.address s2 t out)
        | inr (address, s3, addressed, h3) ↦ elim (bind-panics _ _ s3 t h3) [
          | inl out ↦
              let (key, url, cause) =
                set_entry-panics config (default_config cm.contents).1 fn address.url s3 t out in
              inr (
                config,
                ap libs.unmarshal_config (sym (text-default_config cm))
                    ∙ lift-inv _ s1 config s2 read,
                (
                  address,
                  key,
                  (deref-inv route.status.address s2 address s3 addressed).0,
                  url,
                  cause,
                ),
              )
          | inr (entry, s4, _, h4) ↦ absurd (
              NeverPanics-PanicsAt _ s4 t
                (save_config-NeverPanics ns cm (default_config cm.contents).0 entry) h4)
        ]
      ]
    ]
  ]

  -- The namespace is not set, or the config map that was read cannot get its entry.
  pub reconcile_config-panics :
      (route : Route) (s t : State W Function)
      → PanicsAt (reconcile_config env libs function_name (some route)) s t
      → (libs.system_namespace ≡ none)
        ⊎ ((ns : String) × (cm : ConfigMap) × IsAnswer env
              (get_config_map ns ("config-function-" ++ function_name))
              cm
            × IsUnentered cm route)
  unfolding reconcile_config on_route
  reconcile_config-panics route s t h = elim (bind-panics _ _ s t h) [
    | inl out ↦ inl (deref-panics libs.system_namespace s t out)
    | inr (ns, u, _, h1) ↦
        let read : Call = get_config_map ns ("config-function-" ++ function_name) in
        elim (bind-panics _ _ u t h1) [
          | inl out ↦ absurd (NeverPanics-PanicsAt _ u t (call-NeverPanics env read) out)
          | inr (cm, v, got, rest) ↦
              inr (ns, cm, call-inv env read u cm v got, update_config-panics ns cm route v t rest)
        ]
  ]
