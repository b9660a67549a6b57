-- ===== src/Functions/ConfigCauses.antt =====
-- Why reconcileConfig of pkg/reconciler/functions/functions.go fails.
use Prim.Native.String.{◌++◌}
use knative_functions_contro.Common.{
  String, ◌≡◌, sym, ap, ◌∙◌, ◌⊎◌, inl, inr, Bool, none, some, Option, Error, ok, err, Dict,
}
use knative_functions_contro.Kube.Objects.{ConfigMap, Route, Url}
use knative_functions_contro.Kube.Api.{Env, get_config_map, update_config_map}
use knative_functions_contro.Kube.Action.{State}
use knative_functions_contro.Kube.Inversion.{IsAnswer, call-inv, lift-inv}
use knative_functions_contro.Kube.Failures.{
  FailsWith, bind-fails, if-fails, pure-fails, deref-fails, get_object-fails, lift-fails,
  call-fails, IsRefusal,
}
use knative_functions_contro.Kube.Libraries.{Libraries, Value}
use knative_functions_contro.Duck.Types.{Function}
use knative_functions_contro.Functions.Config.{
  default_config, save_config, set_entry, update_config, on_route, reconcile_config,
}
use knative_functions_contro.Functions.Entries.{config_text, text-default_config, written}

module _ {W : Type 0} (env : Env W) (libs : Libraries) (function_name : String) where
  -- The config map's read is refused; its configuration is not parsed, or not serialised with the
  -- entry; or its update is refused.
  abbrev pub IsConfigless : Error → Type 0
  IsConfigless x =
      (ns : String) × (IsRefusal env (get_config_map ns ("config-function-" ++ function_name)) x
        ⊎ ((cm : ConfigMap) × IsAnswer env (get_config_map ns ("config-function-" ++ function_name))
              cm
            × ((libs.unmarshal_config (config_text cm) ≡ err x)
                ⊎ ((config : Option (Dict Value)) × ((libs.marshal_config config ≡ err x)
                      ⊎ ((raw : String) × (libs.marshal_config config ≡ ok raw)
                          × IsRefusal env (update_config_map ns (written cm raw)) x))))))

  set_entry-fails :
      (config : Option (Dict Value)) (update : Bool) (fn : Function) (o : Option Url)
      (s : State W Function) (x : Error) (t : State W Function)
      → FailsWith (set_entry env libs function_name config update fn o) s x t
      → ⊥
  unfolding set_entry
  set_entry-fails config update fn none s x t h = pure-fails _ s x t h
  set_entry-fails config update fn (some key) s x t h = elim (bind-fails _ _ s x t h) [
    | inl out ↦ deref-fails _ s x t out
    | inr (host, u, got, rest) ↦ deref-fails _ u x t rest
  ]

  save_config-fails :
      (ns : String) (cm : ConfigMap) (entry : Option (Dict Value) × Bool) (s : State W Function)
      (x : Error) (t : State W Function)
      → FailsWith
          (save_config env libs function_name ns cm (default_config cm.contents).0 entry)
          s
          x
          t
      → (libs.marshal_config entry.0 ≡ err x)
        ⊎ ((raw : String) × (libs.marshal_config entry.0 ≡ ok raw)
            × IsRefusal env (update_config_map ns (written cm raw)) x)
  unfolding save_config
  save_config-fails ns cm (config, update) s x t h = elim (if-fails _ update _ s x t h) [
    | inr (same, kept) ↦ absurd (pure-fails cm s x t kept)
    | inl (changed, it) ↦ elim (bind-fails _ _ s x t it) [
      | inl unwritten ↦ inl (lift-fails _ s x t unwritten)
      | inr (raw, u, got, rest) ↦ inr (
        raw,
        lift-inv _ s raw u got,
        call-fails env (update_config_map ns (written cm raw)) u x t rest,
      )
    ]
  ]

  update_config-fails :
      (ns : String) (cm : ConfigMap) (route : Route) (s : State W Function) (x : Error)
      (t : State W Function)
      → FailsWith (update_config env libs function_name ns cm route) s x t
      → (libs.unmarshal_config (config_text cm) ≡ err x)
        ⊎ ((config : Option (Dict Value)) × ((libs.marshal_config config ≡ err x)
              ⊎ ((raw : String) × (libs.marshal_config config ≡ ok raw)
                  × IsRefusal env (update_config_map ns (written cm raw)) x)))
  unfolding update_config
  update_config-fails ns cm route s x t h = elim (bind-fails _ _ s x t h) [
    | inl out ↦ absurd (get_object-fails s x t out)
    | inr (fn, s1, _, h1) ↦ elim (bind-fails _ _ s1 x t h1) [
      | inl unread ↦
          inl (ap libs.unmarshal_config (sym (text-default_config cm)) ∙ lift-fails _ s1 x t unread)
      | inr (config, s2, _, h2) ↦ elim (bind-fails _ _ s2 x t h2) [
        | inl out ↦ absurd (deref-fails route.status.address s2 x t out)
        | inr (address, s3, _, h3) ↦ elim (bind-fails _ _ s3 x t h3) [
          | inl out ↦
              absurd
                (set_entry-fails config (default_config cm.contents).1 fn address.url s3 x t out)
          | inr (entry, s4, _, h4) ↦ inr (entry.0, save_config-fails ns cm entry s4 x t h4)
        ]
      ]
    ]
  ]

  pub reconcile_config-fails :
      (route : Route) (s : State W Function) (x : Error) (t : State W Function)
      → FailsWith (reconcile_config env libs function_name (some route)) s x t
      → IsConfigless x
  unfolding reconcile_config on_route
  reconcile_config-fails route s x t h = elim (bind-fails _ _ s x t h) [
    | inl out ↦ absurd (deref-fails libs.system_namespace s x t out)
    | inr (ns, u, _, h1) ↦ elim (bind-fails _ _ u x t h1) [
      | inl unread ↦ (
        ns,
        inl (call-fails env (get_config_map ns ("config-function-" ++ function_name)) u x t unread),
      )
      | inr (cm, v, got, rest) ↦ (
        ns,
        inr (
          cm,
          call-inv env (get_config_map ns ("config-function-" ++ function_name)) u cm v got,
          update_config-fails ns cm route v x t rest,
        ),
      )
    ]
  ]
