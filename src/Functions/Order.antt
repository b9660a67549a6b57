-- ===== src/Functions/Order.antt =====
-- The calls of the reconciler of Functions and their order.
use knative_functions_contro.Common.{
  String, refl, inl, inr, Option, none, some, List, [], ◌∷◌, Result, ok, err, Bool-cases, Outcome,
  returned, failed, panicked,
}
use knative_functions_contro.Kube.Objects.{Route, Service, Unstructured}
use knative_functions_contro.Kube.Api.{
  Call, Env, get_function, update_function_status, warning_event,
}
use knative_functions_contro.Kube.Action.{State, Action, actions, recover, pure, ◌>>=◌}
use knative_functions_contro.Kube.Order.{
  Kind, reads_function, writes_function_status, reads_route, creates_route, reads_service,
  updates_service, reads_config_map, updates_config_map, records_event, Emits, kind, Emits-bind,
  Emits-get_object, Emits-modify_object, Emits-call, Emits-tell, Emits-attempt, Emits-pure,
  Emits-fail, Emits-lift, Emits-step, Emits-then, Made, made, omitted, none_left, Made-append,
}
use knative_functions_contro.Kube.Libraries.{Libraries}
use knative_functions_contro.Duck.Types.{Function, FunctionStatus}
use knative_functions_contro.Functions.Reconciler.{
  sync_config, sync_route, sync_service, unless_deleted, reconcile_function, update_status,
  report_failure, write_unless, write_back, finish, reconcile_original, found_function,
  reconcile_split, reconcile_key,
}
use knative_functions_contro.Functions.Calls.{
  check_service-Emits, propagate_service-Emits, reconcile_route-Emits, propagate_route-Emits,
  reconcile_service-Emits, reconcile_config-Emits, mark_and_fail-Emits,
}

-- The calls of reconcile, the latest first.
abbrev pub reconcile_kinds : List Kind
reconcile_kinds =
    updates_service ∷ updates_config_map ∷ reads_config_map ∷ creates_route ∷ reads_route
    ∷ reads_service ∷ []

-- The calls of Reconcile, the latest first.
abbrev pub reconcile_key_kinds : List Kind
reconcile_key_kinds =
    records_event ∷ writes_function_status ∷ updates_service ∷ updates_config_map ∷ reads_config_map
    ∷ creates_route ∷ reads_route ∷ reads_service ∷ reads_function ∷ []

module _ {W : Type 0} (env : Env W) (libs : Libraries) (function_name : String) where
  sync_config-Emits :
      (svc : Service) (route : Route)
      → Emits
          (updates_service ∷ updates_config_map ∷ reads_config_map ∷ [])
          (sync_config env libs function_name svc route)
  unfolding sync_config
  sync_config-Emits svc route =
      Emits-step (updates_config_map ∷ reads_config_map ∷ []) (updates_service ∷ []) _ _ _
        (reconcile_config-Emits env libs function_name (some route))
        (mark_and_fail-Emits env libs function_name _)
        (λ cm. Emits-then _ _ _ (Emits-modify_object [] _) (
          Emits-step (updates_service ∷ []) [] _ _ _
            (reconcile_service-Emits env libs function_name svc cm)
            (mark_and_fail-Emits env libs function_name _)
            (λ updated. Emits-then _ _ _ (Emits-modify_object [] _) (Emits-modify_object [] _))))

  sync_route-Emits :
      (svc : Service)
      → Emits
          (updates_service ∷ updates_config_map ∷ reads_config_map ∷ creates_route ∷ reads_route
            ∷ [])
          (sync_route env libs function_name svc)
  unfolding sync_route
  sync_route-Emits svc =
      Emits-step (creates_route ∷ reads_route ∷ [])
        (updates_service ∷ updates_config_map ∷ reads_config_map ∷ []) _ _ _
        (reconcile_route-Emits env libs function_name)
        (mark_and_fail-Emits env libs function_name _)
        (λ route.
          Emits-then _ _ _ (propagate_route-Emits env libs function_name route)
            (sync_config-Emits svc route))

  sync_service-Emits : Emits reconcile_kinds (sync_service env libs function_name)
  unfolding sync_service
  sync_service-Emits =
      Emits-step (reads_service ∷ [])
        (updates_service ∷ updates_config_map ∷ reads_config_map ∷ creates_route ∷ reads_route ∷ [])
        _ _ _ (check_service-Emits env libs function_name)
        (mark_and_fail-Emits env libs function_name _)
        (λ svc.
          Emits-then _ _ _ (propagate_service-Emits env libs function_name svc)
            (sync_route-Emits svc))

  unless_deleted-Emits :
      (o : Option String) → Emits reconcile_kinds (unless_deleted env libs function_name o)
  unfolding unless_deleted
  unless_deleted-Emits (some _) = Emits-pure _ tt
  unless_deleted-Emits none = Emits-then _ _ _ (Emits-modify_object [] _) sync_service-Emits

  reconcile_function-Emits : Emits reconcile_kinds (reconcile_function env libs function_name)
  unfolding reconcile_function
  reconcile_function-Emits =
      Emits-bind {ks = []} {ls = reconcile_kinds} _ _ (Emits-get_object [])
        (λ fn. unless_deleted-Emits fn.meta.deletion_timestamp)

  update_status-Emits :
      (fn : Function)
      → Emits (writes_function_status ∷ []) (update_status env libs function_name fn)
  unfolding update_status kind
  update_status-Emits fn =
      Emits-bind {ks = []} {ls = writes_function_status ∷ []} _ _ (Emits-lift [] _) (λ raw.
        Emits-call env (update_function_status fn.meta.namespace (libs.unmarshal_unstructured raw))
          _ [] refl)

  finish-Emits :
      (r : Result (Unit {0})) → Emits (records_event ∷ []) (finish env libs function_name r)
  unfolding finish kind
  finish-Emits (ok _) = Emits-pure _ tt
  finish-Emits (err e) =
      Emits-bind {ks = []} {ls = records_event ∷ []} _ _ (Emits-get_object []) (λ fn.
        Emits-bind {ks = records_event ∷ []} {ls = []} _ _
          (Emits-tell env (warning_event fn.meta.name "InternalError" e.message) _ [] refl)
          (λ _. Emits-fail [] e))

  -- The end of Reconcile once the write of the status has ended.
  abbrev after_write :
      Result (Unit {0}) → Function → Outcome Unstructured → Action W Function (Unit {0})
  after_write r fn o s1 =
      ((recover (report_failure env libs function_name fn) o >>= λ _. pure tt) >>= λ _.
      finish env libs function_name r)
        s1

  -- An event is recorded for the failed write, and then there is no other one.
  after_write-Made :
      (r : Result (Unit {0})) (fn : Function) (o : Outcome Unstructured) (before : List Call)
      (s1 : State W Function)
      → Made (writes_function_status ∷ []) before s1.calls
      → Made (records_event ∷ writes_function_status ∷ []) before (after_write r fn o s1).1.calls
  unfolding report_failure actions kind
  after_write-Made r fn (returned u) before s1 m = Made-append m ((finish-Emits r).at s1)
  after_write-Made r fn (failed e) before s1 m = made _ refl m
  after_write-Made r fn panicked before s1 m = omitted m

  write_back-Emits :
      (original : FunctionStatus) (r : Result (Unit {0}))
      → Emits
          (records_event ∷ writes_function_status ∷ [])
          (write_back env libs function_name original >>= λ _. finish env libs function_name r)
  unfolding write_back write_unless actions
  write_back-Emits original r = record {
    at = λ s. elim (Bool-cases (libs.status_equal original s.object.status)) [
      | inl same ↦ simp same (Made-append (omitted none_left) ((finish-Emits r).at s))
      | inr differs ↦ simp differs (
          after_write-Made r s.object (update_status env libs function_name s.object s).0 s.calls
            (update_status env libs function_name s.object s).1
            ((update_status-Emits s.object).at s))
    ];
  }

  reconcile_original-Emits :
      (original : Function)
      → Emits
          (records_event ∷ writes_function_status ∷ reconcile_kinds)
          (reconcile_original env libs function_name original)
  unfolding reconcile_original
  reconcile_original-Emits original = Emits-then _ _ _ (Emits-modify_object [] _) (
      Emits-bind {ks = reconcile_kinds} {ls = records_event ∷ writes_function_status ∷ []} _ _
        (Emits-attempt _ reconcile_function-Emits) (λ r. write_back-Emits original.status r))

  found_function-Emits :
      (r : Result Unstructured)
      → Emits
          (records_event ∷ writes_function_status ∷ reconcile_kinds)
          (found_function env libs function_name r)
  unfolding found_function
  found_function-Emits (ok untyped) = reconcile_original-Emits _
  found_function-Emits (err e) = elim (Bool-cases e.not_found) [
    | inl gone ↦ simp gone (Emits-pure _ tt)
    | inr other ↦ simp other (Emits-fail _ e)
  ]

  reconcile_split-Emits :
      (r : Result (String × String))
      → Emits reconcile_key_kinds (reconcile_split env libs function_name r)
  unfolding reconcile_split kind
  reconcile_split-Emits (err _) = Emits-pure _ tt
  reconcile_split-Emits (ok (namespace, name)) =
      Emits-bind {ks = reads_function ∷ []}
        {ls = records_event ∷ writes_function_status ∷ reconcile_kinds} _ _
        (Emits-attempt _ (Emits-call env (get_function namespace name) _ [] refl))
        found_function-Emits

  -- However Reconcile ends, its calls are in this order, each made at most once: the Function is read;
  -- the service is read; the route is read, and created; the config map is read, and updated; the
  -- service is updated; the status is written; and an event is recorded.
  pub reconcile_key-order :
      (key : String) (s : State W Function)
      → Made reconcile_key_kinds s.calls (reconcile_key env libs function_name key s).1.calls
  unfolding reconcile_key
  reconcile_key-order key s = (reconcile_split-Emits (libs.split_meta_namespace_key key)).at s
