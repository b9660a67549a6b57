-- ===== src/Functions/Tables.antt =====
-- The configuration in the config map, as a table of entries by host.
use mathlib.Core.Option
use knative_functions_contro.Common.{
  String, ◌≡◌, refl, sym, ap, ◌∙◌, Option, none, some, ◌==◌, if◌then◌else◌, Dict, lookup,
  lookup_nil, Result, ok, err,
}
use knative_functions_contro.Kube.Objects.{Route, ConfigMap, Url, Addressable}
use knative_functions_contro.Kube.Libraries.{Libraries, Value, JsonLaws}
use knative_functions_contro.Resources.ConfigMap.{config_key}
use knative_functions_contro.Functions.Config.{host_key}
use knative_functions_contro.Functions.Entries.{
  config_text, text_or_default, written, lookup-written,
}

-- A configuration as a table: the entry of each host.
abbrev pub Table : Type 0
Table = String → Option Value

abbrev pub parsed : Result (Option (Dict Value)) → Table
parsed (ok config) host = lookup_nil host config
parsed (err e) host = none

-- The table that is read from a config map.
abbrev pub table : Libraries → ConfigMap → Table
table libs cm = parsed (libs.unmarshal_config (config_text cm))

-- The host whose entry a route stands for.
abbrev pub url_host : Option Url → Option String
url_host none = none
url_host (some key) = host_key key.host

abbrev pub address_host : Option Addressable → Option String
address_host none = none
address_host (some a) = url_host a.url

abbrev pub route_host : Route → Option String
route_host route = address_host route.status.address

abbrev pub entered : Option String → Value → Table → Table
entered none v t host = t host
entered (some key) v t host = if key == host then some v else t host

-- Either no call was made, or one that writes the entry.
pub record IsEntered (libs : Libraries) (laws : JsonLaws libs) (cm : ConfigMap) (route : Route)
    (v : Value) (cm' : ConfigMap) : Type 0 where
  pub same_meta : cm'.meta ≡ cm.meta
  pub same_others :
      (j : String)
      → lookup_nil j cm'.contents
        ≡ (if config_key == j then some (config_text cm') else lookup_nil j cm.contents)
  pub same_entries :
      (host : String)
      → table libs cm' host ≡ entered (route_host route) (laws.read_value v) (table libs cm) host

map_same :
    (f : Value → Value) (o : Option Value)
    → ((v : Value) → o ≡ some v → f v ≡ v)
    → Option.map f o ≡ o
map_same f none h = refl
map_same f (some v) h = ap some (h v refl)

module _ (libs : Libraries) (laws : JsonLaws libs) where
  pub text-written : (cm : ConfigMap) (raw : String) → config_text (written cm raw) ≡ raw
  text-written cm raw = ap text_or_default (lookup-written cm raw config_key)

  -- What is read from a config map that holds the text of a map.
  pub table-written :
      (cm : ConfigMap) (raw : String) (m : Dict Value) (host : String)
      → libs.marshal_config (some m) ≡ ok raw
      → table libs (written cm raw) host ≡ Option.map laws.read_value (lookup host m)
  table-written cm raw m host h =
      let (m', read, entries) = laws.read_back m raw h in
      ap (λ text. parsed (libs.unmarshal_config text) host) (text-written cm raw)
      ∙ ap (λ r. parsed r host) read
      ∙ entries host

  -- The entries of a map that was read stay as they are when they are written and read again.
  pub table_again :
      (cm : ConfigMap) (m : Dict Value) (host : String)
      → libs.unmarshal_config (config_text cm) ≡ ok (some m)
      → Option.map laws.read_value (lookup host m) ≡ table libs cm host
  table_again cm m host read =
      map_same laws.read_value (lookup host m)
        (λ v found. laws.read_again (config_text cm) m host v read found)
      ∙ sym (ap (λ r. parsed r host) read)

  pub written-IsEntered :
      (cm : ConfigMap) (route : Route) (v : Value) (raw : String)
      → ((host : String)
          → table libs (written cm raw) host
            ≡ entered (route_host route) (laws.read_value v) (table libs cm) host)
      → IsEntered libs laws cm route v (written cm raw)
  written-IsEntered cm route v raw h = record {
    same_meta = refl;
    same_others = λ j.
        lookup-written cm raw j
        ∙ ap (λ text. if config_key == j then some text else lookup_nil j cm.contents)
            (sym (text-written cm raw));
    same_entries = h;
  }
