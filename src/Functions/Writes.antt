-- ===== src/Functions/Writes.antt =====
-- reconcileConfig of pkg/reconciler/functions/functions.go on every branch: what a write stores.
use mathlib.Core.Option
use knative_functions_contro.Common.{
  String, ◌≡◌, refl, sym, ap, ◌∙◌, ◌⊎◌, inl, inr, arith, Bool, true, false, Option, none, some, [],
  ◌∷◌, ◌==◌, if◌then◌else◌, Option-cases, Dict, lookup, lookup_nil, insert, lookup-insert, ok,
  Result-cases, panicked,
}
use knative_functions_contro.Kube.Objects.{Route, ConfigMap, Url, Addressable}
use knative_functions_contro.Kube.Api.{Env, update_config_map}
use knative_functions_contro.Kube.Action.{State, actions}
use knative_functions_contro.Kube.Libraries.{Libraries, Value, raw_extension, JsonLaws}
use knative_functions_contro.Duck.Types.{Function}
use knative_functions_contro.Resources.ConfigMap.{config_key}
use knative_functions_contro.Functions.Config.{
  default_config, host_key, save_config, set_entry, update_config,
}
use knative_functions_contro.Functions.Entries.{
  config_text, text_or_default, text-default_config, is_stale_read, update_config_stale, written,
  map_if,
}
use knative_functions_contro.Functions.ConfigErrors.{update_config_panics, update_config_unparsable}
use knative_functions_contro.Functions.Tables.{
  table, entered, address_host, url_host, IsEntered, table-written, table_again, written-IsEntered,
}

module _ (libs : Libraries) (laws : JsonLaws libs) where
  -- A config map that has no configuration is read as an empty table.
  default_empty :
      (o : Option (Dict String)) (config : Option (Dict Value))
      → (default_config o).1 ≡ true
      → libs.unmarshal_config (text_or_default (lookup_nil config_key o)) ≡ ok config
      → config ≡ some []
  unfolding default_config
  default_empty none config h read = cc (read, laws.read_empty)
  default_empty (some m) config h read = elim (Option-cases (lookup config_key m)) [
    | inl missing ↦ cc (missing, read, laws.read_empty)
    | inr (t, found) ↦ absurd_default m t found h
  ]
    where
      absurd_default :
          (d : Dict String) (t : String)
          → lookup config_key d ≡ some t
          → (default_config (some d)).1 ≡ true
          → config ≡ some []
      absurd_default d t found k = ground (arith, found, k)

  module _ {W : Type 0} (env : Env W) (function_name : String) where
    -- What a call of save_config adds to the log.
    Saved : String → ConfigMap → Option (Dict Value) → Bool → State W Function → Type 0
    Saved ns cm config u s =
        let after =
          (save_config env libs function_name ns cm (default_config cm.contents).0 (config, u)
            s).1 in
        (after.calls ≡ s.calls)
        ⊎ ((raw : String) × (u ≡ true)
            × (libs.marshal_config config ≡ ok raw)
            × (after.calls ≡ update_config_map ns (written cm raw) ∷ s.calls))

    save_config-calls :
        (ns : String) (cm : ConfigMap) (config : Option (Dict Value)) (u : Bool)
        (s : State W Function)
        → Saved ns cm config u s
    unfolding save_config actions Saved
    save_config-calls ns cm config false s = inl refl
    save_config-calls ns cm config true s = elim (Result-cases (libs.marshal_config config)) [
      | inl (raw, e) ↦ inr (raw, refl, e, rw e refl)
      | inr (x, e) ↦ inl (rw e refl)
    ]

    -- An address with no URL: the configuration is written as it is, if it is written.
    update_config_plain :
        (ns : String) (cm : ConfigMap) (route : Route) (a : Addressable)
        (config : Option (Dict Value)) (s : State W Function)
        → route.status.address ≡ some a
        → a.url ≡ none
        → libs.unmarshal_config (config_text cm) ≡ ok config
        → update_config env libs function_name ns cm route s
          ≡ save_config env libs function_name ns cm
              (default_config cm.contents).0
              (config, (default_config cm.contents).1)
              s
    unfolding update_config set_entry actions
    update_config_plain ns cm route a config s ha hu read = rw (text-default_config, read, ha, hu)

    update_config_panics_host :
        (ns : String) (cm : ConfigMap) (route : Route) (a : Addressable) (key : Url)
        (config : Option (Dict Value)) (s : State W Function)
        → route.status.address ≡ some a
        → a.url ≡ some key
        → host_key key.host ≡ none
        → libs.unmarshal_config (config_text cm) ≡ ok config
        → update_config env libs function_name ns cm route s ≡ (panicked, s)
    unfolding update_config set_entry actions
    update_config_panics_host ns cm route a key config s ha hu hh read =
        rw (text-default_config, read, ha, hu, hh)

    -- What a call of update_config adds to the log: nothing, or a write that enters the spec.
    abbrev pub Written : String → ConfigMap → Route → State W Function → Type 0
    Written ns cm route s =
        let after = (update_config env libs function_name ns cm route s).1 in
        (after.calls ≡ s.calls)
        ⊎ ((cm' : ConfigMap) × (after.calls ≡ update_config_map ns cm' ∷ s.calls)
            × IsEntered libs laws cm route (raw_extension s.object.spec) cm')

    entered-Written :
        (ns host : String) (cm : ConfigMap) (route : Route) (a : Addressable) (key : Url)
        (m : Dict Value) (s : State W Function)
        → route.status.address ≡ some a
        → a.url ≡ some key
        → host_key key.host ≡ some host
        → libs.unmarshal_config (config_text cm) ≡ ok (some m)
        → Written ns cm route s
    unfolding Saved
    entered-Written ns host cm route a key m s ha hu hh read =
        let spec = raw_extension s.object.spec in
        let stale = is_stale_read libs laws (config_text cm) host s.object.spec (some m) read in
        let e =
          update_config_stale env libs function_name ns host cm route a key m s ha hu hh read
            stale in
        elim (save_config-calls ns cm (some (insert host spec m)) true s) [
          | inl none_made ↦ inl (ap (λ r. r.1.calls) e ∙ none_made)
          | inr (raw, _, saved, made) ↦ inr (
            written cm raw,
            ap (λ r. r.1.calls) e ∙ made,
            written-IsEntered libs laws cm route spec raw (λ h.
                table-written libs laws cm raw (insert host spec m) h saved
                ∙ ap (Option.map laws.read_value) (lookup-insert host h spec m)
                ∙ map_if laws.read_value (host == h) spec (lookup h m)
                ∙ ap (λ o. if host == h then some (laws.read_value spec) else o)
                    (table_again libs laws cm m h read)
                ∙ sym (
                    ap (λ o. entered o (laws.read_value spec) (table libs cm) h)
                      (ap address_host ha ∙ ap url_host hu ∙ hh))),
          )
        ]

    plain-Written :
        (ns : String) (cm : ConfigMap) (route : Route) (a : Addressable)
        (config : Option (Dict Value)) (s : State W Function)
        → route.status.address ≡ some a
        → a.url ≡ none
        → libs.unmarshal_config (config_text cm) ≡ ok config
        → Written ns cm route s
    unfolding Saved
    plain-Written ns cm route a config s ha hu read =
        let e = update_config_plain ns cm route a config s ha hu read in
        elim (save_config-calls ns cm config (default_config cm.contents).1 s) [
          | inl none_made ↦ inl (ap (λ r. r.1.calls) e ∙ none_made)
          | inr (raw, changed, saved, made) ↦
              let empty : config ≡ some [] = default_empty cm.contents config changed read in
              inr (
                written cm raw,
                ap (λ r. r.1.calls) e ∙ made,
                written-IsEntered libs laws cm route (raw_extension s.object.spec) raw (λ h.
                    table-written libs laws cm raw [] h (sym (ap libs.marshal_config empty) ∙ saved)
                    ∙ table_again libs laws cm [] h (read ∙ ap ok empty)
                    ∙ sym (
                        ap
                          (λ o.
                            entered o (laws.read_value (raw_extension s.object.spec))
                              (table libs cm) h)
                          (ap address_host ha ∙ ap url_host hu))),
              )
        ]

    -- However the part of reconcileConfig behind the read of the config map ends, in a panic or an
    -- error too, it has made no call, or one: an update of the config map that was read. That update
    -- keeps its metadata, the version among them, and its other keys; and the table that is read from
    -- it is the one that was read before, with the Function's spec entered for the host of the route's
    -- address, if that has a URL.
    pub update_config-writes :
        (ns : String) (cm : ConfigMap) (route : Route) (s : State W Function)
        → Written ns cm route s
    update_config-writes ns cm route s =
        elim (Result-cases (libs.unmarshal_config (config_text cm))) [
          | inr (x, bad) ↦ inl (
              ap (λ r. r.1.calls)
                (update_config_unparsable env libs function_name ns cm route x s bad))
          | inl (config, read) ↦ elim (Option-cases route.status.address) [
            | inl nil ↦ inl (
                ap (λ r. r.1.calls)
                  (update_config_panics env libs function_name ns cm route config s read (inl nil)))
            | inr (a, ha) ↦ elim (Option-cases a.url) [
              | inl hu ↦ plain-Written ns cm route a config s ha hu read
              | inr (key, hu) ↦ elim (Option-cases (host_key key.host)) [
                | inl hh ↦ inl (
                    ap (λ r. r.1.calls)
                      (update_config_panics_host ns cm route a key config s ha hu hh read))
                | inr (host, hh) ↦ elim (Option-cases config) [
                  | inl null ↦ inl (
                      ap (λ r. r.1.calls)
                        (update_config_panics env libs function_name ns cm route config s read
                          (inr (a, key, ha, hu, inr null))))
                  | inr (m, e) ↦
                      entered-Written ns host cm route a key m s ha hu hh (read ∙ ap ok e)
                ]
              ]
            ]
          ]
        ]
