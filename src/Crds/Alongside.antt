-- ===== src/Crds/Alongside.antt =====
-- The reconciler of pkg/reconciler/crds/crds.go next to the workers of pkg/reconciler/functions: it
-- reads the config map, then the service from its lister, and then sends its update of the service.
use mathlib.Core.List.{Memᴰ}
use knative_functions_contro.Common.{ℕ, suc, String, ◌≡◌, ◌&&◌, Bool, true, false, arith, ◌∷◌, ok}
use knative_functions_contro.Kube.Objects.{ConfigMap, Service}
use knative_functions_contro.Kube.Api.{Env, update_service}
use knative_functions_contro.Kube.Action.{State}
use knative_functions_contro.Kube.Libraries.{Libraries}
use knative_functions_contro.Resources.Ksvc.{make_knative_service}
use knative_functions_contro.Crds.Reconciler.{functions_namespace, found_service}
use knative_functions_contro.Functions.Workers.Service.{Shared, revised, begin}
use knative_functions_contro.Functions.Workers.Service

-- Where the reconciler stands: with nothing to do; with the config map that reconcileConfig has read;
-- or with the service too that reconcileService has found.
pub data Phase : Type 0 where
  resting : Phase
  has_map : ConfigMap → Phase
  has_service : ConfigMap → Service → Phase

pub record Cluster : Type 0 where
  pub shared : Shared
  pub crd : Phase

-- For a definition whose annotation names the image.
module _ {W : Type 0} (env : Env W) (libs : Libraries) (function_name ns : String)
    (show : ℕ → String) (image : String) where
  pub data Step : Cluster → Cluster → Type 0 where
    works :
        {c : Cluster} {t : Shared}
        → Service.Step env libs function_name ns show c.shared t
        → Step c (record c { shared = t })
    gets : {c : Cluster} → c.crd ≡ resting → Step c (record c { crd = has_map c.shared.server })
    looks :
        {c : Cluster} (cm : ConfigMap) (svc : Service)
        → c.crd ≡ has_map cm
        → Memᴰ svc (c.shared.service ∷ c.shared.past)
        → Step c (record c { crd = has_service cm svc })
    sends :
        {c : Cluster} (cm : ConfigMap) (svc svc' : Service) (st : State W (Unit {0}))
        → c.crd ≡ has_service cm svc
        → (found_service env libs
            (make_knative_service function_name cm.meta.resource_version image)
            (ok svc)
            st).1.calls
          ≡ update_service functions_namespace svc' ∷ st.calls
        → svc'.meta.resource_version ≡ c.shared.service.meta.resource_version
        → Step c (record {
          shared = record (c.shared) {
            service = revised (show (suc c.shared.revision)) svc';
            revision = suc c.shared.revision;
            past = c.shared.service ∷ c.shared.past;
          };
          crd = resting;
        })
    -- The service is as it should be, or a call is refused.
    leaves : {c : Cluster} → Step c (record c { crd = resting })

  -- A step in which no call is refused and no reconcile gives up.
  abbrev pub is_served : {c d : Cluster} → Step c d → Bool
  is_served (works step) = Service.is_served env libs function_name ns show step
  is_served (gets at) = true
  is_served (looks cm svc at from) = true
  is_served (sends cm svc svc' st at made matches) = true
  is_served leaves = false

  -- Any number of steps, one after the other.
  pub data Steps : Cluster → Cluster → Type 0 where
    stop : {c : Cluster} → Steps c c
    go : {c d e : Cluster} → Step c d → Steps d e → Steps c e

  abbrev pub all_served : {c d : Cluster} → Steps c d → Bool
  all_served stop = true
  all_served (go step steps) = is_served step && all_served steps

  -- The steps of the workers, and then others.
  pub works_then :
      {c d : Cluster} {t : Shared}
      → Service.Steps env libs function_name ns show c.shared t
      → Steps (record c { shared = t }) d
      → Steps c d
  works_then Service.stop last = last
  works_then {c} (Service.go step steps) last = go (works step) (works_then steps last)

  pub all_served-works_then :
      {c d : Cluster} {t : Shared} (steps : Service.Steps env libs function_name ns show c.shared t)
      (last : Steps (record c { shared = t }) d)
      → Service.all_served env libs function_name ns show steps ≡ true
      → all_served last ≡ true
      → all_served (works_then steps last) ≡ true
  unfolding works_then
  all_served-works_then Service.stop last h g = g
  all_served-works_then (Service.go step steps) last h g =
      ground (arith, all_served-works_then steps last)

  pub data Reach (cm : ConfigMap) (n r : ℕ) : Cluster → Type 0 where
    here :
        Reach cm n r
          (record { shared = begin env libs function_name ns show image cm n r; crd = resting })
    next : {c d : Cluster} → Reach cm n r c → Step c d → Reach cm n r d
