-- ===== src/Functions/Workers/Service.antt =====
-- Workers that run the whole reconcile of pkg/reconciler/functions/functions.go at the same time, with
-- the config map and the service at the API server. A worker checks the service, reads the config map,
-- sends its update of it, and then sends its update of the service; the server accepts an update just
-- if it carries the version that the object has. A reconcile that returns an error is tried again by
-- the work queue. Knative may change the service's status at any time.
use native.Mathlib.Decide.{ℕ_discrete}
use mathlib.Core.List.{Memᴰ}
use mathlib.Core.Logic.{ite}
use knative_functions_contro.Common.{
  ℕ, suc, String, ◌≡◌, ◌&&◌, arith, Bool, true, false, List, [], ◌∷◌, returned,
}
use knative_functions_contro.Kube.Objects.{Condition, ConfigMap, Route, Service}
use knative_functions_contro.Kube.Api.{Env, update_config_map, update_service}
use knative_functions_contro.Kube.Action.{State}
use knative_functions_contro.Kube.Libraries.{Libraries}
use knative_functions_contro.Duck.Types.{Function}
use knative_functions_contro.Resources.Ksvc.{make_knative_service}
use knative_functions_contro.Functions.Config.{update_config}
use knative_functions_contro.Functions.Steps.{reconcile_service}
use knative_functions_contro.Functions.Workers.System.{stamped}

-- Where a worker stands: with no reconcile to do; after one that has failed, which the work queue tries
-- again; with the service that it has checked; with the config map that it has read; or with the one
-- that reconcileConfig has returned.
pub data Stage : Type 0 where
  idle failed : Stage
  checked : Service → Stage
  holds configured : Service → ConfigMap → Stage

-- A reconcile may begin.
abbrev pub can_begin : Stage → Bool
can_begin idle = true
can_begin failed = true
can_begin _ = false

-- The config map and the service at the server, each with the number of its version, and the services
-- that it had before, the latest first.
pub record Shared : Type 0 where
  pub server : ConfigMap
  pub version : ℕ
  pub service : Service
  pub revision : ℕ
  pub past : List Service
  pub workers : ℕ → Stage

abbrev pub set_stage : ℕ → Stage → (ℕ → Stage) → ℕ → Stage
set_stage i stage workers j = ite (ℕ_discrete i j) stage (workers j)

-- The service with the version that the server gives to it.
abbrev pub revised : String → Service → Service
revised revision service = record service {
  meta = record (service.meta) { resource_version = revision };
}

module _ {W : Type 0} (env : Env W) (libs : Libraries) (function_name ns : String)
    (show : ℕ → String) where
  pub data Step : Shared → Shared → Type 0 where
    -- The lister's cache may be behind: it gives the service, or one that the server had before.
    checks :
        {s : Shared} (i : ℕ) (svc : Service)
        → can_begin (s.workers i) ≡ true
        → Memᴰ svc (s.service ∷ s.past)
        → Step s (record s { workers = set_stage i (checked svc) s.workers })
    reads :
        {s : Shared} (i : ℕ) (svc : Service)
        → s.workers i ≡ checked svc
        → Step s (record s { workers = set_stage i (holds svc s.server) s.workers })
    stores :
        {s : Shared} (i : ℕ) (svc : Service) (cm cm' : ConfigMap) (route : Route)
        (st : State W Function)
        → s.workers i ≡ holds svc cm
        → (update_config env libs function_name ns cm route st).1.calls
          ≡ update_config_map ns cm' ∷ st.calls
        → cm'.meta.resource_version ≡ s.server.meta.resource_version
        → Step s (record s {
          server = stamped (show (suc s.version)) cm';
          version = suc s.version;
          workers = set_stage i (configured svc (stamped (show (suc s.version)) cm')) s.workers;
        })
    -- reconcileConfig returns the config map that it has read: with no update, or with one that changes
    -- nothing, for which the server gives no new version.
    passes :
        {s : Shared} (i : ℕ) (svc : Service) (cm : ConfigMap)
        → s.workers i ≡ holds svc cm
        → Step s (record s { workers = set_stage i (configured svc cm) s.workers })
    updates :
        {s : Shared} (i : ℕ) (svc svc' : Service) (cm : ConfigMap) (st : State W Function)
        → s.workers i ≡ configured svc cm
        → (reconcile_service env libs function_name svc cm st).1.calls
          ≡ update_service svc.meta.namespace svc' ∷ st.calls
        → svc'.meta.resource_version ≡ s.service.meta.resource_version
        → Step s (record s {
          service = revised (show (suc s.revision)) svc';
          revision = suc s.revision;
          past = s.service ∷ s.past;
          workers = set_stage i idle s.workers;
        })
    -- reconcileService returns the service, with no update.
    finishes :
        {s : Shared} (i : ℕ) (svc svc' : Service) (cm : ConfigMap) (st : State W Function)
        → s.workers i ≡ configured svc cm
        → reconcile_service env libs function_name svc cm st ≡ (returned svc', st)
        → Step s (record s { workers = set_stage i idle s.workers })
    -- A call is refused, an object is not ready, or the program ends and starts again.
    fails : {s : Shared} (i : ℕ) → Step s (record s { workers = set_stage i failed s.workers })
    -- Knative writes the status of the service.
    observes :
        {s : Shared} (conditions : List Condition)
        → Step s (record s {
          service =
              revised (show (suc s.revision)) (record (s.service) { conditions = conditions });
          revision = suc s.revision;
          past = s.service ∷ s.past;
        })

  -- A step in which no call is refused and no worker gives up.
  abbrev pub is_served : {s t : Shared} → Step s t → Bool
  is_served (fails i) = false
  is_served _ = true

  -- The service that the CRD reconciler has created for the config map, and any number of workers.
  abbrev pub begin : String → ConfigMap → ℕ → ℕ → Shared
  begin image cm version revision = record {
    server = stamped (show version) cm;
    version = version;
    service = revised (show revision) (make_knative_service function_name (show version) image);
    revision = revision;
    past = [];
    workers = λ i. idle;
  }

  pub data Reach (image : String) (cm : ConfigMap) (n r : ℕ) : Shared → Type 0 where
    here : Reach image cm n r (begin image cm n r)
    next : {s t : Shared} → Reach image cm n r s → Step s t → Reach image cm n r t

  -- Any number of steps, one after the other.
  pub data Steps : Shared → Shared → Type 0 where
    stop : {s : Shared} → Steps s s
    go : {s t u : Shared} → Step s t → Steps t u → Steps s u

  abbrev pub all_served : {s t : Shared} → Steps s t → Bool
  all_served stop = true
  all_served (go step steps) = is_served step && all_served steps

  pub append : {s t u : Shared} → Steps s t → Steps t u → Steps s u
  append stop last = last
  append (go step steps) last = go step (append steps last)

  pub all_served-append :
      {s t u : Shared} (steps : Steps s t) (last : Steps t u)
      → all_served steps ≡ true
      → all_served last ≡ true
      → all_served (append steps last) ≡ true
  unfolding append
  all_served-append stop last h g = g
  all_served-append (go step steps) last h g = ground (arith, all_served-append steps last)
