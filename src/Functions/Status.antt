-- ===== src/Functions/Status.antt =====
-- What reconcile has done to the Function when it ends, by how it ended.
use knative_functions_contro.Common.{
  String, ◌≡◌, ◌⊎◌, inl, inr, arith, Bool, true, false, Option, none, some, List, [], Error,
  eq_refl,
}
use knative_functions_contro.Kube.Objects.{Condition, is_true, is_false, Service}
use knative_functions_contro.Kube.Api.{Env}
use knative_functions_contro.Kube.Triple.{
  Triple, Triple-modify, Triple-modify_last, Triple-fail, Triple-pure, Triple-if,
}
use knative_functions_contro.Kube.Conditions.{ConditionLaws}
use knative_functions_contro.Kube.Libraries.{Libraries}
use knative_functions_contro.Duck.Types.{Function, FunctionStatus}
use knative_functions_contro.Duck.Lifecycle.{
  function_condition_config_map_synced, function_condition_route_ready,
  function_condition_service_synced, mark_true, mark_false,
}
use knative_functions_contro.Duck.Conditions.{reported, reported-mark_true, reported-mark_false}
use knative_functions_contro.Functions.Steps.{
  is_condition_true, with_status, judge_service, judge_route,
}
use knative_functions_contro.Functions.Reconciler.{mark_and_fail}

-- Only the status of the object differs.
pub record IsFramed (before after : Function) : Type 0 where
  pub same_type : after.type_meta ≡ before.type_meta
  pub same_meta : after.meta ≡ before.meta
  pub same_spec : after.spec ≡ before.spec

-- The published part of the status is as it was.
pub record IsUnpublished (before after : Function) : Type 0 where
  pub framed : IsFramed before after
  pub same_address : after.status.address ≡ before.status.address
  pub same_url : after.status.url ≡ before.status.url
  pub same_generation : after.status.observed_generation ≡ before.status.observed_generation

abbrev pub is_ready_condition : Option Condition → Bool
is_ready_condition none = false
is_ready_condition (some c) = is_condition_true c

module _ (libs : Libraries) where
  -- One of the three conditions says why.
  abbrev pub IsExplained : FunctionStatus → Type 0
  IsExplained ps =
      (reported libs.conditions ps function_condition_service_synced ≡ some is_false)
      ⊎ ((reported libs.conditions ps function_condition_route_ready ≡ some is_false)
          ⊎ (reported libs.conditions ps function_condition_config_map_synced ≡ some is_false))

  abbrev pub HasFailed : Function → Function → Type 0
  HasFailed before after = IsUnpublished before after × IsExplained after.status

module _ (libs : Libraries) (laws : ConditionLaws libs.conditions) (before : Function) where
  -- A condition that is marked False is reported False.
  reported_false :
      (t reason format : String) (args : List String) (ps : FunctionStatus)
      → reported libs.conditions (mark_false libs.conditions t reason format args ps) t
        ≡ some is_false
  reported_false t reason format args ps = rw (reported-mark_false libs.conditions laws, eq_refl)

  IsUnpublished-mark_false :
      (t reason format : String) (args : List String) (fn : Function)
      → IsUnpublished before fn
      → IsUnpublished before (with_status (mark_false libs.conditions t reason format args) fn)
  unfolding mark_false
  IsUnpublished-mark_false t reason format args fn h = ground (arith, h)

  pub IsUnpublished-mark_true :
      (t : String) (fn : Function)
      → IsUnpublished before fn
      → IsUnpublished before (with_status (mark_true libs.conditions t) fn)
  unfolding mark_true
  IsUnpublished-mark_true t fn h = ground (arith, h)

  -- The two ways in which a step fails: its error is marked, or it marks the status by itself.
  pub mark_and_fail-HasFailed :
      {W A : Type 0} {Q : A → Function → Type 0} (t reason : String) (format : Error → String)
      (args : Error → List String) (e : Error)
      → ((ps : FunctionStatus)
          → reported libs.conditions ps t ≡ some is_false
          → IsExplained libs ps)
      → Triple {W = W}
          (IsUnpublished before)
          (mark_and_fail (λ x. mark_false libs.conditions t reason (format x) (args x)) e)
          Q
          (λ _. HasFailed libs before)
  mark_and_fail-HasFailed t reason format args e why =
      Triple-modify _ _
        (λ fn h. (
          IsUnpublished-mark_false t _ _ _ fn h,
          why (mark_false libs.conditions t reason (format e) (args e) fn.status)
              (reported_false t _ _ _ fn.status),
        ))
        (Triple-fail e (λ fn h. h))

  pub IsExplained-service :
      (ps : FunctionStatus)
      → reported libs.conditions ps function_condition_service_synced ≡ some is_false
      → IsExplained libs ps
  IsExplained-service ps h = inl h

  pub IsExplained-route :
      (ps : FunctionStatus)
      → reported libs.conditions ps function_condition_route_ready ≡ some is_false
      → IsExplained libs ps
  IsExplained-route ps h = inr (inl h)

  pub IsExplained-config :
      (ps : FunctionStatus)
      → reported libs.conditions ps function_condition_config_map_synced ≡ some is_false
      → IsExplained libs ps
  IsExplained-config ps h = inr (inr h)

  module _ {W : Type 0} (env : Env W) (function_name : String) where
    pub judge_service-Triple :
        (svc : Service) (o : Option Condition)
        → Triple
            (IsUnpublished before)
            (judge_service env libs function_name svc o)
            (λ _ fn. IsUnpublished before fn × (is_ready_condition o ≡ true))
            (λ _. HasFailed libs before)
    unfolding judge_service
    judge_service-Triple svc none =
        mark_and_fail-HasFailed function_condition_service_synced "Unknown" (λ _. "") (λ _. []) _
          IsExplained-service
    judge_service-Triple svc (some c) =
        Triple-if _ _ _ (λ ready. Triple-pure tt (λ fn h. (h, ready)))
          (λ _.
            mark_and_fail-HasFailed function_condition_service_synced c.reason (λ _. c.message)
              (λ _. []) _ IsExplained-service)

    pub judge_route-Triple :
        (o : Option Condition)
        → Triple
            (IsUnpublished before)
            (judge_route env libs function_name o)
            (λ _ fn.
              IsUnpublished before fn
              × (is_ready_condition o ≡ true)
              × (reported libs.conditions fn.status function_condition_route_ready ≡ some is_true))
            (λ _. HasFailed libs before)
    unfolding judge_route
    judge_route-Triple none =
        mark_and_fail-HasFailed function_condition_route_ready "Unknown" (λ _. "") (λ _. []) _
          IsExplained-route
    judge_route-Triple (some c) =
        Triple-if _ _ _
          (λ ready. Triple-modify_last _ (λ fn h. (
            IsUnpublished-mark_true _ fn h,
            ready,
            reported-mark_true libs.conditions laws _ _ fn.status,
          )))
          (λ _.
            mark_and_fail-HasFailed function_condition_route_ready c.reason (λ _. c.message)
              (λ _. []) _ IsExplained-route)
