-- ===== src/Tests/Conditions.antt =====
-- A condition library for the tests, and that it behaves as documented.
use knative_functions_contro.Common.{
  String, ◌≡◌, refl, arith, true, false, Option, none, some, List, [], ◌∷◌, ◌==◌, if◌then◌else◌,
  eq_iff, eq_refl,
}
use knative_functions_contro.Kube.Objects.{
  Condition, ConditionStatus, is_true, is_false, is_unknown,
}
use knative_functions_contro.Kube.Conditions.{
  condition_ready, ConditionLib, ConditionLaws, status_of, is_status_true, contains, others_true,
}

-- The latest condition of a type stands first.
unfoldable pub find : String → List Condition → Option Condition
find t [] = none
find t (c ∷ cs) = if c.type == t then some c else find t cs

abbrev pub condition : String → ConditionStatus → Condition
condition t status = record { type = t; status = status; severity = ""; reason = ""; message = "" }

abbrev pub found_status : List Condition → String → Option ConditionStatus
found_status cs t = status_of (find t cs)

unfoldable pub without_ready : List String → List String
without_ready [] = []
without_ready (t ∷ ts) = if t == condition_ready then without_ready ts else t ∷ without_ready ts

unfoldable pub initialise : List String → List Condition → List Condition
initialise [] cs = cs
initialise (t ∷ ts) cs = elim (find t cs) [
  | none ↦ initialise ts (condition t is_unknown ∷ cs)
  | some _ ↦ initialise ts cs
]

abbrev pub test_conditions : ConditionLib
test_conditions = record {
  new_living_condition_set =
      λ ts. record { happy = condition_ready; dependents = without_ready ts };
  get_condition = λ set cs t. find t cs;
  is_happy = λ set cs. is_status_true (found_status cs set.happy);
  initialize_conditions = λ set cs. initialise (set.happy ∷ set.dependents) cs;
  mark_true = λ set t cs.
      if others_true (found_status cs) t set.dependents
      then condition set.happy is_true ∷ condition t is_true ∷ cs
      else condition t is_true ∷ cs;
  mark_false = λ set t reason format args cs.
      let failed = record (condition t is_false) { reason = reason; message = format } in
      if contains set.dependents t
      then record failed { type = set.happy } ∷ failed ∷ cs
      else failed ∷ cs;
}

contains-without_ready :
    (ts : List String) (t : String)
    → contains (without_ready ts) t ≡ (if t == condition_ready then false else contains ts t)
unfolding contains without_ready
contains-without_ready [] t = ground arith
contains-without_ready (u ∷ us) t = ground (
  arith,
  eq_iff u condition_ready,
  eq_iff t condition_ready,
  eq_iff u t,
  contains-without_ready us t,
)

initialise_set :
    (ts : List String) (u : String) (cs : List Condition) (st : ConditionStatus)
    → found_status cs u ≡ some st
    → found_status (initialise ts cs) u ≡ some st
unfolding initialise find
initialise_set [] u cs st h = h
initialise_set (t ∷ ts) u cs st h = ground (
  arith,
  eq_iff t u,
  initialise_set ts u (condition t is_unknown ∷ cs) st,
  initialise_set ts u cs st,
)

initialise_other :
    (ts : List String) (u : String) (cs : List Condition)
    → contains ts u ≡ false
    → found_status (initialise ts cs) u ≡ found_status cs u
unfolding initialise find contains
initialise_other [] u cs h = refl
initialise_other (t ∷ ts) u cs h =
    ground (arith, initialise_other ts u (condition t is_unknown ∷ cs), initialise_other ts u cs)

initialise_unset :
    (ts : List String) (u : String) (cs : List Condition)
    → contains ts u ≡ true
    → found_status cs u ≡ none
    → found_status (initialise ts cs) u ≡ some is_unknown
unfolding initialise find contains
initialise_unset [] u cs h unset = cc
initialise_unset (t ∷ ts) u cs h unset = ground (
  arith,
  eq_iff t u,
  eq_refl u,
  initialise_set ts u (condition t is_unknown ∷ cs) is_unknown,
  initialise_unset ts u (condition t is_unknown ∷ cs),
  initialise_unset ts u cs,
)

pub test_conditions_laws : ConditionLaws test_conditions
unfolding find contains initialise
test_conditions_laws = record {
  living_happy = λ ts. refl;
  living_dependents = contains-without_ready;
  is_happy_iff = λ set cs. refl;
  get-mark_true = λ set t u cs. ground arith;
  get-mark_false = λ set t u reason format args cs. ground arith;
  get-initialize_set = λ set u cs st h. initialise_set (set.happy ∷ set.dependents) u cs st h;
  get-initialize_unset =
      λ set u cs h _ unset. initialise_unset (set.happy ∷ set.dependents) u cs h unset;
  get-initialize_other =
      λ set u cs h d. initialise_other (set.happy ∷ set.dependents) u cs (ground arith);
}
