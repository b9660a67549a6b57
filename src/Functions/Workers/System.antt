-- ===== src/Functions/Workers/System.antt =====
-- Workers that run reconcileConfig of pkg/reconciler/functions/functions.go at the same time, and the
-- config map at the API server. A worker reads the config map, and later sends its update; between
-- the two, the others go on. The server accepts an update just if it carries the version that the
-- config map has, and gives the config map a new version then: this is what Kubernetes documents for
-- resourceVersion. Nobody else writes the config map; the CRD reconciler never updates one.
use native.Mathlib.Decide.{ℕ_discrete}
use mathlib.Core.Logic.{ite}
use knative_functions_contro.Common.{ℕ, suc, String, ◌≡◌, List, [], ◌∷◌}
use knative_functions_contro.Kube.Objects.{ConfigMap, Route}
use knative_functions_contro.Kube.Api.{Env, update_config_map}
use knative_functions_contro.Kube.Action.{State}
use knative_functions_contro.Kube.Libraries.{Libraries, Value, raw_extension}
use knative_functions_contro.Duck.Types.{Function}
use knative_functions_contro.Functions.Config.{update_config}
use knative_functions_contro.Functions.Tables.{Table, entered, route_host}

-- Where a worker stands: between two calls, or with the config map that it has read.
pub data Phase : Type 0 where
  idle : Phase
  holds : ConfigMap → Phase

-- `log` has the entries of the accepted updates, the latest first.
pub record System : Type 0 where
  pub server : ConfigMap
  pub version : ℕ
  pub workers : ℕ → Phase
  pub log : List (Route × Value)

abbrev pub set_worker : ℕ → Phase → (ℕ → Phase) → ℕ → Phase
set_worker i phase workers j = ite (ℕ_discrete i j) phase (workers j)

-- The config map with the version that the server gives to it.
abbrev pub stamped : String → ConfigMap → ConfigMap
stamped version cm = record cm { meta = record (cm.meta) { resource_version = version } }

-- Any number of workers, each idle.
abbrev pub begin : (ℕ → String) → ConfigMap → ℕ → System
begin show cm n = record {
  server = stamped (show n) cm;
  version = n;
  workers = λ i. idle;
  log = [];
}

-- The texts of versions are a parameter.
module _ {W : Type 0} (env : Env W) (libs : Libraries) (function_name ns : String)
    (show : ℕ → String) where
  pub data Step : System → System → Type 0 where
    reads :
        {s : System} (i : ℕ)
        → s.workers i ≡ idle
        → Step s (record s { workers = set_worker i (holds s.server) s.workers })
    stores :
        {s : System} (i : ℕ) (cm cm' : ConfigMap) (route : Route) (st : State W Function)
        → s.workers i ≡ holds cm
        → (update_config env libs function_name ns cm route st).1.calls
          ≡ update_config_map ns cm' ∷ st.calls
        → cm'.meta.resource_version ≡ s.server.meta.resource_version
        → Step s (record {
          server = stamped (show (suc s.version)) cm';
          version = suc s.version;
          workers = set_worker i idle s.workers;
          log = (route, raw_extension st.object.spec) ∷ s.log;
        })
    -- The update is refused, there is none, or the reconcile ends before it.
    gives_up : {s : System} (i : ℕ) → Step s (record s { workers = set_worker i idle s.workers })

  pub data Reach (cm : ConfigMap) (n : ℕ) : System → Type 0 where
    here : Reach cm n (begin show cm n)
    next : {s t : System} → Reach cm n s → Step s t → Reach cm n t

-- The table that the entries of a log make of another, one entry at a time.
abbrev pub replay : (Value → Value) → List (Route × Value) → Table → Table
replay read [] t = t
replay read ((route, v) ∷ log) t = entered (route_host route) (read v) (replay read log t)
