-- ===== src/Functions/Entries.antt =====
-- reconcileConfig of pkg/reconciler/functions/functions.go: what is written to the configuration.
use mathlib.Core.Option
use knative_functions_contro.Common.{
  String, ◌≡◌, refl, ap, ◌∙◌, inl, inr, arith, Bool, true, false, not, Option, none, some, [], ◌∷◌,
  ◌==◌, eq_iff, if◌then◌else◌, Option-cases, Dict, lookup, lookup_nil, insert, lookup-insert, ok,
  returned,
}
use knative_functions_contro.Kube.Objects.{Route, ConfigMap, Url, Addressable}
use knative_functions_contro.Kube.Api.{Env, update_config_map}
use knative_functions_contro.Kube.Action.{State, actions}
use knative_functions_contro.Kube.Libraries.{Libraries, Value, raw_extension, JsonLaws}
use knative_functions_contro.Duck.Types.{Function, RawExtension}
use knative_functions_contro.Resources.ConfigMap.{config_key}
use knative_functions_contro.Functions.Steps.{or_empty}
use knative_functions_contro.Functions.Config.{
  default_config, host_key, is_stale, put_entry, save_config, set_entry, update_config,
}

-- The text of the configuration, "{}" where there is none yet.
abbrev pub text_or_default : Option String → String
text_or_default none = "{}"
text_or_default (some t) = t

abbrev pub config_text : ConfigMap → String
config_text cm = text_or_default (lookup_nil config_key cm.contents)

pub map_if :
    (f : Value → Value) (b : Bool) (v : Value) (o : Option Value)
    → Option.map f (if b then some v else o) ≡ (if b then some (f v) else Option.map f o)
map_if f true v o = refl
map_if f false v o = refl

lookup-default_config :
    (o : Option (Dict String)) (j : String)
    → lookup j (default_config o).0 ≡ (
        if config_key == j
        then some (text_or_default (lookup_nil config_key o))
        else lookup_nil j o)
unfolding default_config lookup
lookup-default_config none j = lookup-insert config_key j "{}" []
lookup-default_config (some m) j = elim (Option-cases (lookup config_key m)) [
  | inl missing ↦ rw (missing, default_config) (lookup-insert config_key j "{}" m)
  | inr (t, found) ↦ rw (found, default_config) (ground (arith, eq_iff config_key j, found))
]

-- The map that the entry is put into carries the text that is parsed.
pub text-default_config :
    (cm : ConfigMap) → or_empty (lookup config_key (default_config cm.contents).0) ≡ config_text cm
text-default_config cm = ap or_empty (lookup-default_config cm.contents config_key)

-- The config map that is written: the old one with the new text of the configuration.
abbrev pub written : ConfigMap → String → ConfigMap
written cm raw = record cm {
  contents = some (insert config_key raw (default_config cm.contents).0);
}

pub lookup-written :
    (cm : ConfigMap) (raw j : String)
    → lookup_nil j (written cm raw).contents
      ≡ (if config_key == j then some raw else lookup_nil j cm.contents)
lookup-written cm raw j =
    lookup-insert config_key j raw (default_config cm.contents).0
    ∙ ground (arith, lookup-default_config cm.contents j)

module _ (libs : Libraries) where
  put_entry_stale :
      (host : String) (v : Value) (u : Bool) (m : Dict Value)
      → is_stale libs host v (some m) ≡ true
      → put_entry libs host v u (some m) ≡ some (some (insert host v m), true)
  unfolding put_entry
  put_entry_stale host v u m stale = rw (stale, put_entry)

  -- A configuration that was read from JSON holds no entry that compares equal to a Function's spec.
  pub is_stale_read :
      (laws : JsonLaws libs) (text host : String) (spec : Option RawExtension)
      (config : Option (Dict Value))
      → libs.unmarshal_config text ≡ ok config
      → is_stale libs host (raw_extension spec) config ≡ true
  unfolding is_stale
  is_stale_read laws text host spec none read = refl
  is_stale_read laws text host spec (some m) read = elim (Option-cases (lookup host m)) [
    | inl missing ↦ rw (missing, is_stale)
    | inr (v, found) ↦
        rw (found, is_stale) (ap not (laws.read_differs text m host v spec read found))
  ]

module _ {W : Type 0} (env : Env W) (libs : Libraries) (function_name : String) where
  set_entry_stale :
      (host : String) (key : Url) (u : Bool) (fn : Function) (m : Dict Value) (s : State W Function)
      → host_key key.host ≡ some host
      → is_stale libs host (raw_extension fn.spec) (some m) ≡ true
      → set_entry env libs function_name (some m) u fn (some key) s
        ≡ (returned (some (insert host (raw_extension fn.spec) m), true), s)
  unfolding set_entry actions
  set_entry_stale host key u fn m s hh stale =
      rw (hh, put_entry_stale libs host (raw_extension fn.spec) u m stale)

  -- The part of updateConfig behind the parse, for a configuration that is a map.
  pub update_config_stale :
      (ns host : String) (cm : ConfigMap) (route : Route) (a : Addressable) (key : Url)
      (m : Dict Value) (s : State W Function)
      → route.status.address ≡ some a
      → a.url ≡ some key
      → host_key key.host ≡ some host
      → libs.unmarshal_config (config_text cm) ≡ ok (some m)
      → is_stale libs host (raw_extension s.object.spec) (some m) ≡ true
      → update_config env libs function_name ns cm route s
        ≡ save_config env libs function_name ns cm
            (default_config cm.contents).0
            (some (insert host (raw_extension s.object.spec) m), true)
            s
  unfolding update_config actions
  update_config_stale ns host cm route a key m s ha hu hh hr stale = rw (
    text-default_config,
    hr,
    ha,
    hu,
    set_entry_stale host key (default_config cm.contents).1 s.object m s hh stale,
  )

  calls-save_config :
      (ns raw : String) (cm : ConfigMap) (config : Option (Dict Value)) (s : State W Function)
      → libs.marshal_config config ≡ ok raw
      → (save_config env libs function_name ns cm
          (default_config cm.contents).0
          (config, true)
          s).1.calls
        ≡ update_config_map ns (written cm raw) ∷ s.calls
  unfolding save_config actions
  calls-save_config ns raw cm config s h = rw h

  -- A route whose address has a URL, the first two parts of whose host are the key of the entry; a
  -- configuration that is parsed from the config map and is a map; and the map with the Function's
  -- spec as the entry of that key can be serialised. Then one call is made, an update of the config
  -- map: its metadata and its other keys are as they were, and what is parsed from it then has the
  -- spec, as JSON reads it back, under that key and, as JSON reads it back, the old entry under
  -- every other key.
  pub update_config-stores :
      (laws : JsonLaws libs) (ns host raw : String) (cm : ConfigMap) (route : Route)
      (a : Addressable) (key : Url) (m : Dict Value) (s : State W Function)
      → route.status.address ≡ some a
      → a.url ≡ some key
      → host_key key.host ≡ some host
      → libs.unmarshal_config (config_text cm) ≡ ok (some m)
      → libs.marshal_config (some (insert host (raw_extension s.object.spec) m)) ≡ ok raw
      → (cm' : ConfigMap) × ((update_config env libs function_name ns cm route s).1.calls
          ≡ update_config_map ns cm' ∷ s.calls)
        × (cm'.meta ≡ cm.meta)
        × ((j : String)
            → lookup_nil j cm'.contents
              ≡ (if config_key == j then some raw else lookup_nil j cm.contents))
        × (m' : Dict Value) × (libs.unmarshal_config (config_text cm') ≡ ok (some m'))
        × ((h : String)
            → lookup h m' ≡ (
                if host == h
                then some (laws.read_value (raw_extension s.object.spec))
                else Option.map laws.read_value (lookup h m)))
  update_config-stores laws ns host raw cm route a key m s ha hu hh hr hm =
      let stale = is_stale_read libs laws (config_text cm) host s.object.spec (some m) hr in
      let (m', read, entries) =
        laws.read_back (insert host (raw_extension s.object.spec) m) raw hm in
      (
        written cm raw,
        ap (λ r. r.1.calls) (update_config_stale ns host cm route a key m s ha hu hh hr stale)
            ∙ calls-save_config ns raw cm _ s hm,
        refl,
        lookup-written cm raw,
        m',
        ap (λ o. libs.unmarshal_config (text_or_default o))
              (lookup-insert config_key config_key raw (default_config cm.contents).0)
            ∙ read,
        λ h.
            entries h
            ∙ ap (Option.map laws.read_value) (lookup-insert host h (raw_extension s.object.spec) m)
            ∙ map_if laws.read_value (host == h) _ (lookup h m),
      )
