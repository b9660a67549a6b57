-- ===== src/Functions/Config.antt =====
-- (*Reconciler).reconcileConfig of pkg/reconciler/functions/functions.go
use Prim.Native.String.{◌++◌}
use knative_functions_contro.Common.{
  String, Bool, true, false, not, Option, none, some, List, [], ◌∷◌, if◌then◌else◌, Dict, lookup,
  lookup_nil, insert, split_dots,
}
use knative_functions_contro.Kube.Objects.{ConfigMap, Route, Url}
use knative_functions_contro.Kube.Api.{get_config_map, update_config_map, Env}
use knative_functions_contro.Kube.Action.{Action, pure, lift, deref, get_object, call, ◌>>=◌}
use knative_functions_contro.Kube.Libraries.{Value, raw_extension, Libraries}
use knative_functions_contro.Duck.Types.{Function}
use knative_functions_contro.Resources.ConfigMap.{config_key}
use knative_functions_contro.Functions.Steps.{or_empty}

-- The map of the config map, made if it is nil, with an entry for the configuration, and whether
-- that is a change.
unfoldable pub default_config : Option (Dict String) → Dict String × Bool
default_config none = (insert config_key "{}" [], true)
default_config (some m) = elim (lookup config_key m) [
  | none ↦ (insert config_key "{}" m, true)
  | some _ ↦ (m, false)
]

-- parts[0] + "." + parts[1]; `none` is the panic of an index out of range.
abbrev pub first_two : List String → Option String
first_two (a ∷ b ∷ rest) = some (a ++ "." ++ b)
first_two _ = none

unfoldable pub host_key : String → Option String
host_key host = first_two (split_dots host)

module _ (libs : Libraries) where
  -- `old, ok := config[host]; !ok || !DeepEqual(old, data)`
  unfoldable pub is_stale : String → Value → Option (Dict Value) → Bool
  is_stale host value config = elim (lookup_nil host config) [
    | none ↦ true
    | some old ↦ not (libs.value_equal old value)
  ]

  -- The entry of the host is written if it is stale; a write to a nil map panics (`none`). The
  -- Boolean is `update`.
  unfoldable pub put_entry :
      String → Value → Bool → Option (Dict Value) → Option (Option (Dict Value) × Bool)
  unfolding is_stale
  put_entry host value update config =
      if is_stale host value config
      then elim config [ none ↦ none | some m ↦ some (some (insert host value m), true) ]
      else some (config, update)

module _ {W : Type 0} (env : Env W) (libs : Libraries) (function_name : String) where
  -- The write of the configuration, if there is a change.
  unfoldable pub save_config :
      String → ConfigMap → Dict String → Option (Dict Value) × Bool → Action W Function ConfigMap
  save_config ns cm m (config, update) =
      if update
      then (do
        rawconfig ← lift (libs.marshal_config config)
        call env
            (update_config_map ns (record cm { contents = some (insert config_key rawconfig m) })))
      else pure cm

  -- `if key != nil`, with the configuration that was read and `update`
  unfoldable pub set_entry :
      Option (Dict Value)
      → Bool
      → Function
      → Option Url
      → Action W Function (Option (Dict Value) × Bool)
  unfolding host_key put_entry
  set_entry config update fn none = pure (config, update)
  set_entry config update fn (some key) = do
    host ← deref (host_key key.host)
    deref (put_entry libs host (raw_extension fn.spec) update config)

  -- The part of the body under `if route != nil`.
  unfoldable pub update_config : String → ConfigMap → Route → Action W Function ConfigMap
  unfolding default_config set_entry save_config
  update_config ns cm route = do
    fn ← get_object
    let defaults = default_config cm.contents
    config ← lift (libs.unmarshal_config (or_empty (lookup config_key defaults.0)))
    address ← deref route.status.address
    entry ← set_entry config defaults.1 fn address.url
    save_config ns cm defaults.0 entry

  unfoldable pub on_route : String → ConfigMap → Option Route → Action W Function ConfigMap
  unfolding update_config
  on_route ns cm none = pure cm
  on_route ns cm (some route) = update_config ns cm route

  -- A nil route leaves the config map as it is.
  unfoldable pub reconcile_config : Option Route → Action W Function ConfigMap
  unfolding on_route
  reconcile_config route = do
    ns ← deref libs.system_namespace
    cm ← call env (get_config_map ns ("config-function-" ++ function_name))
    on_route ns cm route
