-- ===== src/Functions/Publishing.antt =====
-- What the steps of reconcile make of the Function.
use knative_functions_contro.Common.{String, ◌≡◌, refl, ap, ◌∙◌, true, some, List, [], Error}
use knative_functions_contro.Kube.Objects.{is_true, is_false, Route, Service}
use knative_functions_contro.Kube.Api.{Env}
use knative_functions_contro.Kube.Action.{Action, catch}
use knative_functions_contro.Kube.Triple.{
  Triple, Triple-bind, Triple-catch, Triple-keeps, Triple-modify, Triple-modify_last, Triple-weaken,
}
use knative_functions_contro.Kube.Conditions.{ConditionLaws, condition_ready}
use knative_functions_contro.Kube.Libraries.{Libraries}
use knative_functions_contro.Duck.Types.{Function, FunctionStatus}
use knative_functions_contro.Duck.Lifecycle.{
  function_condition_config_map_synced, function_condition_route_ready,
  function_condition_addressable, function_condition_service_synced, get_condition, is_ready,
  mark_true, mark_false, set_address,
}
use knative_functions_contro.Duck.Conditions.{reported, reported-mark_true, is_ready-set_address}
use knative_functions_contro.Functions.Reconciler.{route_url, publish, mark_and_fail, sync_config}
use knative_functions_contro.Functions.Kept.{reconcile_service-keeps, reconcile_config-keeps}
use knative_functions_contro.Functions.Status.{
  IsFramed, IsUnpublished, IsExplained, HasFailed, is_ready_condition, mark_and_fail-HasFailed,
  IsUnpublished-mark_true, IsExplained-service, IsExplained-config,
}

-- What a successful reconcile has made of the Function, from the service and the route that it saw.
pub record IsPublished (libs : Libraries) (svc : Service) (route : Route) (before after : Function)
    : Type 0 where
  pub framed : IsFramed before after
  pub saw_service : is_ready_condition (libs.status_condition svc.conditions condition_ready) ≡ true
  pub saw_route :
      is_ready_condition (libs.status_condition route.status.conditions condition_ready) ≡ true
  pub address : after.status.address ≡ some (record { url = some (route_url libs route) })
  pub url : after.status.url ≡ route.status.url
  pub observed : after.status.observed_generation ≡ before.meta.generation
  pub config_map_synced :
      reported libs.conditions after.status function_condition_config_map_synced ≡ some is_true
  pub service_synced :
      reported libs.conditions after.status function_condition_service_synced ≡ some is_true
  pub route_ready :
      reported libs.conditions after.status function_condition_route_ready ≡ some is_true
  pub addressable :
      reported libs.conditions after.status function_condition_addressable ≡ some is_true
  pub ready : is_ready libs.conditions after.status ≡ true

module _ (libs : Libraries) (laws : ConditionLaws libs.conditions) (before : Function) where
  -- The state before the last assignments.
  abbrev IsSynced : Function → Type 0
  IsSynced fn =
      IsUnpublished before fn
      × (reported libs.conditions fn.status function_condition_route_ready ≡ some is_true)
      × (reported libs.conditions fn.status function_condition_config_map_synced ≡ some is_true)
      × (reported libs.conditions fn.status function_condition_service_synced ≡ some is_true)

  -- The last assignments change no condition but Addressable and Ready.
  reported-publish :
      (route : Route) (fn : Function) (t : String)
      → reported libs.conditions (publish libs route fn).status t
        ≡ reported libs.conditions
            (mark_true libs.conditions function_condition_addressable fn.status)
            t
  unfolding publish mark_true get_condition
  reported-publish route fn t = refl

  publish-IsPublished :
      (svc : Service) (route : Route) (fn : Function)
      → is_ready_condition (libs.status_condition svc.conditions condition_ready) ≡ true
      → is_ready_condition (libs.status_condition route.status.conditions condition_ready) ≡ true
      → IsSynced fn
      → IsPublished libs svc route before (publish libs route fn)
  unfolding publish
  publish-IsPublished svc route fn saw_s saw_r (u, r, c, s) = record {
    framed = record {
      same_type = u.framed.same_type;
      same_meta = u.framed.same_meta;
      same_spec = u.framed.same_spec;
    };
    saw_service = saw_s;
    saw_route = saw_r;
    address = unfold set_address mark_true in refl;
    url = refl;
    observed = ap (λ m. m.generation) u.framed.same_meta;
    config_map_synced =
        reported-publish route fn _
        ∙ reported-mark_true libs.conditions laws _ function_condition_config_map_synced fn.status
        ∙ c;
    service_synced =
        reported-publish route fn _
        ∙ reported-mark_true libs.conditions laws _ function_condition_service_synced fn.status
        ∙ s;
    route_ready =
        reported-publish route fn _
        ∙ reported-mark_true libs.conditions laws _ function_condition_route_ready fn.status
        ∙ r;
    addressable =
        reported-publish route fn _
        ∙ reported-mark_true libs.conditions laws _ function_condition_addressable fn.status;
    ready =
        unfold is_ready set_address in
        is_ready-set_address libs.conditions laws (route_url libs route) fn.status c;
  }

  module _ {W : Type 0} (env : Env W) (function_name : String) where
    -- The failure of a step that leaves the object alone is marked.
    pub marked_step :
        {A : Type 0} {P : Function → Type 0} {Q : A → Function → Type 0} (t reason : String)
        (format : Error → String) (args : Error → List String) (m : Action W Function A)
        → ((ps : FunctionStatus)
            → reported libs.conditions ps t ≡ some is_false
            → IsExplained libs ps)
        → ((fn : Function) → P fn → IsUnpublished before fn)
        → Triple P m Q (λ _. P)
        → Triple P
            (catch m (mark_and_fail (λ x. mark_false libs.conditions t reason (format x) (args x))))
            Q
            (λ _. HasFailed libs before)
    marked_step t reason format args m why weak step = Triple-catch m _ step (λ e.
        Triple-weaken _ (mark_and_fail-HasFailed libs laws before t reason format args e why) weak
          (λ _ _ q. q) (λ _ _ q. q))

    pub sync_config-Triple :
        (svc : Service) (route : Route)
        → is_ready_condition (libs.status_condition svc.conditions condition_ready) ≡ true
        → is_ready_condition (libs.status_condition route.status.conditions condition_ready) ≡ true
        → Triple
            (λ fn.
              IsUnpublished before fn
              × (reported libs.conditions fn.status function_condition_route_ready ≡ some is_true))
            (sync_config env libs function_name svc route)
            (λ _. IsPublished libs svc route before)
            (λ _. HasFailed libs before)
    unfolding sync_config
    sync_config-Triple svc route saw_s saw_r =
        Triple-bind _ _
          (marked_step function_condition_config_map_synced "UpdateFailed" (λ e. e.message)
            (λ _. []) _ (IsExplained-config libs laws before) (λ fn h. h.0)
            (Triple-keeps _ (reconcile_config-keeps env libs function_name (some route))))
          (λ cm.
            Triple-modify
              {P' = λ fn.
                IsUnpublished before fn
                × (reported libs.conditions fn.status function_condition_route_ready ≡ some is_true)
                × (reported libs.conditions fn.status function_condition_config_map_synced
                    ≡ some is_true)}
              _ _
              (λ fn h. (
                IsUnpublished-mark_true libs laws before _ fn h.0,
                reported-mark_true libs.conditions laws _ function_condition_route_ready fn.status
                    ∙ h.1,
                reported-mark_true libs.conditions laws _ function_condition_config_map_synced
                    fn.status,
              ))
              (Triple-bind _ _
                (marked_step function_condition_service_synced "UpdateFailed" (λ e. e.message)
                  (λ _. []) _ (IsExplained-service libs laws before) (λ fn h. h.0)
                  (Triple-keeps _ (reconcile_service-keeps env libs function_name svc cm)))
                (λ updated.
                  Triple-modify {P' = IsSynced} _ _
                    (λ fn h. (
                      IsUnpublished-mark_true libs laws before _ fn h.0,
                      reported-mark_true libs.conditions laws _ function_condition_route_ready
                            fn.status
                          ∙ h.1,
                      reported-mark_true libs.conditions laws _ function_condition_config_map_synced
                            fn.status
                          ∙ h.2,
                      reported-mark_true libs.conditions laws _ function_condition_service_synced
                          fn.status,
                    ))
                    (Triple-modify_last _
                      (λ fn h. publish-IsPublished svc route fn saw_s saw_r h)))))
