-- ===== src/Duck/Conditions.antt =====
-- The readiness of a Function under the methods of function_lifecycle.go, for any condition library
-- that behaves as documented.
use knative_functions_contro.Common.{
  String, ◌≡◌, refl, true, false, Option, none, some, List, [], ◌∷◌, ◌==◌, ◌&&◌, ◌||◌,
  if◌then◌else◌, arith, eq_iff, eq_refl, ◌∙◌, ap,
}
use knative_functions_contro.Kube.Objects.{Url, ConditionStatus, is_true, is_false, is_unknown}
use knative_functions_contro.Kube.Conditions.{
  ConditionLib, ConditionLaws, status_of, is_status_true, contains, others_true,
}
use knative_functions_contro.Duck.Types.{FunctionStatus}
use knative_functions_contro.Duck.Lifecycle.{
  function_condition_ready, function_condition_config_map_synced, function_condition_addressable,
  function_condition_route_ready, function_condition_service_synced, function_cond_set,
  get_condition, is_ready, initialize_conditions, mark_true, mark_false, mark_route_not_ready,
  mark_service_not_synced, set_address,
}

-- The status of a condition, as the manager reports it.
abbrev pub reported : ConditionLib → FunctionStatus → String → Option ConditionStatus
reported lib ps t = status_of (get_condition lib ps t)

-- A test over the dependents other than `t` passes if each of them passes.
others_true_of :
    (f : String → Option ConditionStatus) (t : String) (us : List String)
    → ((u : String) → contains us u ≡ true → ((u == t) || is_status_true (f u)) ≡ true)
    → others_true f t us ≡ true
unfolding others_true contains
others_true_of f t [] h = refl
others_true_of f t (u ∷ us) h =
    ground (arith, h u, eq_refl u, others_true_of f t us (λ v c. h v (ground (arith, c))))

-- And each of them passes if the test does.
pub others_true_at :
    (f : String → Option ConditionStatus) (t u : String) (us : List String)
    → others_true f t us ≡ true
    → contains us u ≡ true
    → (u == t) ≡ false
    → is_status_true (f u) ≡ true
unfolding others_true contains
others_true_at f t u [] h c ne = cc
others_true_at f t u (v ∷ us) h c ne =
    ground (arith, eq_iff v u, eq_iff u t, eq_iff v t, others_true_at f t u us)

module _ (lib : ConditionLib) (laws : ConditionLaws lib) where
  happy_ready : (function_cond_set lib).happy ≡ function_condition_ready
  unfolding function_cond_set
  happy_ready = laws.living_happy _

  -- The dependents of pFunctionCondSet: Ready itself is skipped.
  pub contains-dependents :
      (t : String)
      → contains (function_cond_set lib).dependents t ≡ (
          if t == function_condition_ready
          then false
          else (function_condition_config_map_synced == t) || (function_condition_addressable == t))
  unfolding function_cond_set contains
  contains-dependents t =
      laws.living_dependents _ t
      ∙ ground (arith, eq_iff t function_condition_ready, eq_iff function_condition_ready t)

  -- What the manager reports after each method, with the set of pFunctionCondSet put in.
  pub reported-mark_false :
      (t u reason format : String) (args : List String) (ps : FunctionStatus)
      → reported lib (mark_false lib t reason format args ps) u ≡ (
          if t == u
          then some is_false
          else if (function_condition_ready == u) && contains (function_cond_set lib).dependents t
          then some is_false
          else reported lib ps u)
  unfolding get_condition mark_false
  reported-mark_false t u reason format args ps =
      simp happy_ready at
        (laws.get-mark_false (function_cond_set lib) t u reason format args ps.conditions)

  pub reported-mark_true :
      (t u : String) (ps : FunctionStatus)
      → reported lib (mark_true lib t ps) u ≡ (
          if t == u
          then some is_true
          else if (function_condition_ready == u)
              && others_true (reported lib ps) t (function_cond_set lib).dependents
          then some is_true
          else reported lib ps u)
  unfolding get_condition mark_true
  reported-mark_true t u ps =
      simp happy_ready at (laws.get-mark_true (function_cond_set lib) t u ps.conditions)

  pub is_ready-eq :
      (ps : FunctionStatus)
      → is_ready lib ps ≡ is_status_true (reported lib ps function_condition_ready)
  unfolding is_ready get_condition
  is_ready-eq ps = simp happy_ready at (laws.is_happy_iff (function_cond_set lib) ps.conditions)

  -- The dependents other than `t` are true if those of the two that are not `t` are.
  pub others_true-dependents :
      (f : String → Option ConditionStatus) (t : String)
      → ((function_condition_config_map_synced == t)
          || is_status_true (f function_condition_config_map_synced))
        ≡ true
      → ((function_condition_addressable == t) || is_status_true (f function_condition_addressable))
        ≡ true
      → others_true f t (function_cond_set lib).dependents ≡ true
  others_true-dependents f t hc ha = others_true_of f t _ (λ u c. ground (
    arith,
    contains-dependents u,
    c,
    eq_iff u function_condition_ready,
    eq_iff function_condition_config_map_synced u,
    eq_iff function_condition_addressable u,
    eq_iff u t,
    eq_iff function_condition_config_map_synced t,
    eq_iff function_condition_addressable t,
  ))

  -- If the ConfigMapSynced condition is True, setting an address with a URL makes the Function
  -- ready.
  pub is_ready-set_address :
      (url : Url) (ps : FunctionStatus)
      → reported lib ps function_condition_config_map_synced ≡ some is_true
      → is_ready lib (set_address lib (some url) ps) ≡ true
  unfolding set_address get_condition
  is_ready-set_address url ps h =
      is_ready-eq _
      ∙ rw (
        reported-mark_true,
        others_true-dependents (reported lib ps) function_condition_addressable
            (ap is_status_true h) refl,
      )

  marked_false_readiness :
      (t reason format : String) (args : List String) (ps : FunctionStatus)
      → is_ready lib (mark_false lib t reason format args ps) ≡ (
          if (function_condition_ready == t)
            || (function_condition_config_map_synced == t)
            || (function_condition_addressable == t)
          then false
          else is_ready lib ps)
  marked_false_readiness t reason format args ps =
      is_ready-eq _
      ∙ rw reported-mark_false (
          ground (
            arith,
            contains-dependents t,
            eq_iff t function_condition_ready,
            eq_iff function_condition_ready t,
            is_ready-eq ps,
          ))

  -- When a condition is marked False, the Function is not ready if the condition is Ready,
  -- ConfigMapSynced or Addressable; if it is any other, the readiness of the Function stays as it was.
  -- So it stays when the route is marked as not ready, and when the service is marked as not synced.
  pub is_ready-mark_false :
      (t reason format : String) (args : List String) (ps : FunctionStatus)
      → (is_ready lib (mark_false lib t reason format args ps) ≡ (
          if (function_condition_ready == t)
            || (function_condition_config_map_synced == t)
            || (function_condition_addressable == t)
          then false
          else is_ready lib ps))
        × (is_ready lib (mark_route_not_ready lib reason format args ps) ≡ is_ready lib ps)
        × (is_ready lib (mark_service_not_synced lib reason format args ps) ≡ is_ready lib ps)
  is_ready-mark_false t reason format args ps = (
    marked_false_readiness t reason format args ps,
    marked_false_readiness function_condition_route_ready reason format args ps,
    marked_false_readiness function_condition_service_synced reason format args ps,
  )

  -- Initialising the conditions keeps what is set, and makes an unset Ready Unknown.
  pub reported-initialize_set :
      (u : String) (ps : FunctionStatus) (st : ConditionStatus)
      → reported lib ps u ≡ some st
      → reported lib (initialize_conditions lib ps) u ≡ some st
  unfolding get_condition initialize_conditions
  reported-initialize_set u ps st h = laws.get-initialize_set _ u ps.conditions st h

  pub reported-initialize_ready :
      (ps : FunctionStatus)
      → reported lib ps function_condition_ready ≡ none
      → reported lib (initialize_conditions lib ps) function_condition_ready ≡ some is_unknown
  unfolding get_condition initialize_conditions
  reported-initialize_ready ps h =
      laws.get-initialize_unset _ function_condition_ready ps.conditions (simp happy_ready)
        (simp (happy_ready, h)) h
