-- ===== src/Kube/Conditions.antt =====
-- knative.dev/pkg/apis.ConditionSet and its ConditionManager, a library that the source calls: an
-- interface, with what its documentation promises as laws. The manager reads and writes the
-- conditions of the status that it manages, so an operation takes the conditions and gives the new ones.
use knative_functions_contro.Common.{
  String, ◌≡◌, Bool, true, false, Option, none, some, List, [], ◌∷◌, ◌==◌, if◌then◌else◌, ◌&&◌,
  ◌||◌,
}
use knative_functions_contro.Kube.Objects.{
  Condition, ConditionStatus, is_true, is_false, is_unknown,
}

pub record ConditionSet : Type 0 where
  pub happy : String
  pub dependents : List String

-- apis.ConditionReady
abbrev pub condition_ready : String
condition_ready = "Ready"

pub record ConditionLib : Type 0 where
  pub new_living_condition_set : List String → ConditionSet
  pub get_condition : ConditionSet → List Condition → String → Option Condition
  pub is_happy : ConditionSet → List Condition → Bool
  pub initialize_conditions : ConditionSet → List Condition → List Condition
  pub mark_true : ConditionSet → String → List Condition → List Condition
  -- type, reason, message format and its arguments
  pub mark_false :
      ConditionSet → String → String → String → List String → List Condition → List Condition

abbrev pub status_of : Option Condition → Option ConditionStatus
status_of none = none
status_of (some c) = some c.status

abbrev pub is_status_true : Option ConditionStatus → Bool
is_status_true (some is_true) = true
is_status_true _ = false

-- contains(types, t)
unfoldable pub contains : List String → String → Bool
contains [] t = false
contains (u ∷ us) t = (u == t) || contains us t

-- Every type but `t` of the list has status True.
unfoldable pub others_true : (String → Option ConditionStatus) → String → List String → Bool
others_true f t [] = true
others_true f t (u ∷ us) = ((u == t) || is_status_true (f u)) && others_true f t us

-- The documented behaviour of the manager, by the status that it reports for each type.
pub record ConditionLaws (lib : ConditionLib) : Type 0 where
  pub living_happy : (ts : List String) → (lib.new_living_condition_set ts).happy ≡ condition_ready
  -- "The set of condition types provided are those of the terminal subconditions."
  pub living_dependents :
      (ts : List String) (t : String)
      → contains (lib.new_living_condition_set ts).dependents t
        ≡ (if t == condition_ready then false else contains ts t)
  -- "returns true if that condition is set to true"
  pub is_happy_iff :
      (set : ConditionSet) (cs : List Condition)
      → lib.is_happy set cs ≡ is_status_true (status_of (lib.get_condition set cs set.happy))
  -- "sets the status of t to true, and then marks the happy condition to true if all dependents are true"
  pub get-mark_true :
      (set : ConditionSet) (t u : String) (cs : List Condition)
      → status_of (lib.get_condition set (lib.mark_true set t cs) u) ≡ (
          if t == u
          then some is_true
          else if (set.happy == u)
              && others_true (λ v. status_of (lib.get_condition set cs v)) t set.dependents
          then some is_true
          else status_of (lib.get_condition set cs u))
  -- "sets the status of t and the happy condition to False", the happy one where t is a dependent
  pub get-mark_false :
      (set : ConditionSet) (t u reason format : String) (args : List String) (cs : List Condition)
      → status_of (lib.get_condition set (lib.mark_false set t reason format args cs) u) ≡ (
          if t == u
          then some is_false
          else if (set.happy == u) && contains set.dependents t
          then some is_false
          else status_of (lib.get_condition set cs u))
  -- "updates all Conditions in the ConditionSet to Unknown if not set": what is set stays, and what
  -- the set does not name stays unset
  pub get-initialize_set :
      (set : ConditionSet) (u : String) (cs : List Condition) (st : ConditionStatus)
      → status_of (lib.get_condition set cs u) ≡ some st
      → status_of (lib.get_condition set (lib.initialize_conditions set cs) u) ≡ some st
  pub get-initialize_unset :
      (set : ConditionSet) (u : String) (cs : List Condition)
      → ((set.happy == u) || contains set.dependents u) ≡ true
      → is_status_true (status_of (lib.get_condition set cs set.happy)) ≡ false
      → status_of (lib.get_condition set cs u) ≡ none
      → status_of (lib.get_condition set (lib.initialize_conditions set cs) u) ≡ some is_unknown
  pub get-initialize_other :
      (set : ConditionSet) (u : String) (cs : List Condition)
      → (set.happy == u) ≡ false
      → contains set.dependents u ≡ false
      → status_of (lib.get_condition set (lib.initialize_conditions set cs) u)
        ≡ status_of (lib.get_condition set cs u)
