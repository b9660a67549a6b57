-- ===== src/Functions/Workers/Log.antt =====
-- The workers' updates of the config map, against the abstract table with one entry at a time.
use mathlib.Core.Logic.{dite}
use native.Mathlib.Decide.{ℕ_discrete}
use mathlib.Core.Path.{subst}
use knative_functions_contro.Common.{
  no_cycle, ℕ, suc, ◌≤◌, String, ◌≡◌, refl, sym, ap, ◌∙◌, inl, inr, arith, ◌∷◌, Option, none, some,
  ◌==◌, if◌then◌else◌,
}
use knative_functions_contro.Kube.Objects.{ConfigMap, Route}
use knative_functions_contro.Kube.Api.{Env, update_config_map}
use knative_functions_contro.Kube.Action.{State}
use knative_functions_contro.Kube.Libraries.{Libraries, Value, raw_extension, JsonLaws}
use knative_functions_contro.Duck.Types.{Function}
use knative_functions_contro.Functions.Config.{update_config}
use knative_functions_contro.Functions.Tables.{Table, table, entered, route_host}
use knative_functions_contro.Functions.Writes.{update_config-writes}
use knative_functions_contro.Functions.Workers.System.{
  Phase, idle, holds, System, set_worker, Step, reads, stores, gives_up, Reach, here, next, replay,
}

entered_cong :
    (o : Option String) (v : Value) (t u : Table) (host : String)
    → t host ≡ u host
    → entered o v t host ≡ entered o v u host
entered_cong none v t u host h = h
entered_cong (some key) v t u host h = ap (λ e. if key == host then some v else e) h

module _ (show : ℕ → String) where
  -- A config map that a worker holds has the version of some number that was given out, and is the
  -- server's where that is the last one.
  abbrev IsHeld : ConfigMap → ℕ → Phase → Type 0
  IsHeld server version idle = Unit
  IsHeld server version (holds cm) =
      (n : ℕ) × (n ≤ version) × (cm.meta.resource_version ≡ show n) × (n ≡ version → cm ≡ server)

  IsHeld-later :
      (server server' : ConfigMap) (version : ℕ) (phase : Phase)
      → IsHeld server version phase
      → IsHeld server' (suc version) phase
  IsHeld-later server server' version idle h = h
  IsHeld-later server server' version (holds cm) (n, bound, e, same) =
      (n, omega (bound, arith), e, λ h. absurd (omega (bound, h, arith)))

  IsHeld-set :
      (server : ConfigMap) (version i j : ℕ) (phase : Phase) (workers : ℕ → Phase)
      → IsHeld server version phase
      → IsHeld server version (workers j)
      → IsHeld server version (set_worker i phase workers j)
  IsHeld-set server version i j phase workers h k =
      elim (ℕ_discrete i j) as (λ d. IsHeld server version (dite d (λ _. phase) (λ _. workers j))) [
        | yes _ ↦ h
        | no _ ↦ k
      ]

module _ {W : Type 0} (env : Env W) (libs : Libraries) (laws : JsonLaws libs)
    (function_name ns : String) (show : ℕ → String)
    (distinct : (m n : ℕ) → show m ≡ show n → m ≡ n) where
  -- An update with the version of the server's config map enters the spec in the server's table.
  stored_entered :
      (s : System) (cm cm' : ConfigMap) (route : Route) (st : State W Function)
      → IsHeld show s.server s.version (holds cm)
      → s.server.meta.resource_version ≡ show s.version
      → (update_config env libs function_name ns cm route st).1.calls
        ≡ update_config_map ns cm' ∷ st.calls
      → cm'.meta.resource_version ≡ s.server.meta.resource_version
      → (host : String)
      → table libs cm' host
        ≡ entered
            (route_host route)
            (laws.read_value (raw_extension st.object.spec))
            (table libs s.server)
            host
  stored_entered s cm cm' route st (n, _, version, same) last made matches host =
      elim (update_config-writes libs laws env function_name ns cm route st) [
        | inl none_made ↦
            absurd (no_cycle (update_config_map ns cm') st.calls (sym none_made ∙ made))
        | inr (stored, called, e) ↦
            let it : stored ≡ cm' = cc (called, made) in
            let kept : cm'.meta ≡ cm.meta = sym (ap (λ c. c.meta) it) ∙ e.same_meta in
            let number : show n ≡ show s.version =
              sym version ∙ ap (λ m. m.resource_version) (sym kept) ∙ matches ∙ last in
            ap (λ c. table libs c host) (sym it)
            ∙ e.same_entries host
            ∙ ap
                (λ c.
                  entered (route_host route) (laws.read_value (raw_extension st.object.spec))
                    (table libs c) host)
                (same (distinct n s.version number))
      ]

  record IsSound (cm : ConfigMap) (s : System) : Type 0 where
    last : s.server.meta.resource_version ≡ show s.version
    held : (i : ℕ) → IsHeld show s.server s.version (s.workers i)
    same_table :
        (host : String)
        → table libs s.server host ≡ replay laws.read_value s.log (table libs cm) host

  Step-IsSound :
      (cm : ConfigMap) {s t : System}
      → Step env libs function_name ns show s t
      → IsSound cm s
      → IsSound cm t
  Step-IsSound cm {s} (reads i free) sound = record {
    last = sound.last;
    same_table = sound.same_table;
    held = λ j.
        IsHeld-set show s.server s.version i j (holds s.server) s.workers
          (s.version, omega arith, sound.last, λ _. refl) (sound.held j);
  }
  Step-IsSound cm {s} (gives_up i) sound = record {
    last = sound.last;
    same_table = sound.same_table;
    held = λ j. IsHeld-set show s.server s.version i j idle s.workers tt (sound.held j);
  }
  Step-IsSound cm {s} (stores i read new route st busy made matches) sound = record {
    last = refl;
    held = λ j.
        IsHeld-set show _ (suc s.version) i j idle s.workers tt
          (IsHeld-later show s.server _ s.version (s.workers j) (sound.held j));
    same_table = λ host.
        stored_entered s read new route st
          (subst (IsHeld show s.server s.version) busy (sound.held i)) sound.last made matches host
        ∙ entered_cong (route_host route) _ (table libs s.server)
            (replay laws.read_value s.log (table libs cm)) host (sound.same_table host);
  }

  Reach-IsSound :
      (cm : ConfigMap) (n : ℕ) {s : System}
      → Reach env libs function_name ns show cm n s
      → IsSound cm s
  Reach-IsSound cm n here = record { last = refl; held = λ i. tt; same_table = λ host. refl }
  Reach-IsSound cm n (next r step) = Step-IsSound cm step (Reach-IsSound cm n r)

  -- Any number of workers read the config map and store their updates of it in any order, each with
  -- the version that it has read, and the server gives every version a text of its own. Then no update
  -- that the server accepts is lost: what is read from the config map is what it was at the start with
  -- the accepted entries put in, one after the other.
  pub no_lost_update :
      (cm : ConfigMap) (n : ℕ) {s : System}
      → Reach env libs function_name ns show cm n s
      → (host : String)
      → table libs s.server host ≡ replay laws.read_value s.log (table libs cm) host
  no_lost_update cm n r = (Reach-IsSound cm n r).same_table
