-- ===== src/Functions/Workers/Remaining.antt =====
-- No worker takes an entry out of the config map.
use knative_functions_contro.Common.{
  ℕ, String, ◌≡◌, refl, sym, ◌∙◌, inl, inr, Bool-cases, Option, none, some, ◌==◌,
}
use knative_functions_contro.Kube.Objects.{ConfigMap}
use knative_functions_contro.Kube.Api.{Env}
use knative_functions_contro.Kube.Libraries.{Libraries, Value, raw_extension, JsonLaws}
use knative_functions_contro.Functions.Tables.{Table, table, entered, route_host}
use knative_functions_contro.Functions.Workers.System.{
  System, Step, reads, stores, gives_up, Reach, next, replay,
}
use knative_functions_contro.Functions.Workers.Log.{no_lost_update}

-- The table has an entry for the host.
abbrev pub HasEntry : Table → String → Type 0
HasEntry t host = (v : Value) × (t host ≡ some v)

entered-HasEntry :
    (o : Option String) (w : Value) (t : Table) (host : String)
    → HasEntry t host
    → HasEntry (entered o w t) host
entered-HasEntry none w t host h = h
entered-HasEntry (some key) w t host (v, h) = elim (Bool-cases (key == host)) [
  | inl same ↦ (w, rw same refl)
  | inr other ↦ (v, rw other h)
]

module _ {W : Type 0} (env : Env W) (libs : Libraries) (laws : JsonLaws libs)
    (function_name ns : String) (show : ℕ → String)
    (distinct : (m n : ℕ) → show m ≡ show n → m ≡ n) where
  -- Any number of workers read the config map and store their updates of it in any order, each with
  -- the version that it has read, and the server gives every version a text of its own. In a state
  -- that is reached, the config map has an entry for a host. Then it has one for that host behind the
  -- next step too, whichever it is: no entry is ever taken out.
  pub table-HasEntry :
      (cm : ConfigMap) (n : ℕ) {s t : System} (host : String)
      → Reach env libs function_name ns show cm n s
      → Step env libs function_name ns show s t
      → HasEntry (table libs s.server) host
      → HasEntry (table libs t.server) host
  table-HasEntry cm n host reached (reads i free) h = h
  table-HasEntry cm n host reached (gives_up i) h = h
  table-HasEntry cm n {s = s} host reached (stores i read new route st busy made matches) (v, h) =
      let before = no_lost_update env libs laws function_name ns show distinct cm n reached host in
      let after =
        no_lost_update env libs laws function_name ns show distinct cm n
          (next reached (stores i read new route st busy made matches)) host in
      let (w, e) =
        entered-HasEntry (route_host route) (laws.read_value (raw_extension st.object.spec))
          (replay laws.read_value s.log (table libs cm)) host (v, sym before ∙ h) in
      (w, after ∙ e)
