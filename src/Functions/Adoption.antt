-- ===== src/Functions/Adoption.antt =====
-- reconcileRoute of pkg/reconciler/functions/functions.go on the route that an earlier reconcile made.
use knative_functions_contro.Common.{String, ◌≡◌, ap, ◌∙◌, true, [], ◌∷◌, Error, ok, err, returned}
use knative_functions_contro.Kube.Objects.{GroupVersionKind, ObjectMeta, Route}
use knative_functions_contro.Kube.Api.{Env, get_route, create_route}
use knative_functions_contro.Kube.Action.{State, actions}
use knative_functions_contro.Kube.Libraries.{Libraries}
use knative_functions_contro.Duck.Types.{Function}
use knative_functions_contro.Duck.Lifecycle.{get_group_version_kind}
use knative_functions_contro.Resources.Route.{make_route_name, route_literal, make_route_plain}
use knative_functions_contro.Functions.Steps.{functions_namespace, reconcile_route}
use knative_functions_contro.Functions.Answered.{reconcile_route_owned}

-- metav1.IsControlledBy, for an object whose one owner reference is a NewControllerRef of the owner
abbrev pub IsControllerRef : Libraries → Type 0
IsControllerRef libs =
    (meta owner : ObjectMeta) (gvk : GroupVersionKind)
    → meta.owner_references ≡ libs.new_controller_ref owner gvk ∷ []
    → libs.is_controlled_by meta owner ≡ true

module _ {W : Type 0} (env : Env W) (libs : Libraries) where
  reconcile_route_missing :
      (function_name : String) (route : Route) (e : Error) (w1 w2 : W) (s : State W Function)
      → let name = make_route_name function_name s.object.meta.name s.object.meta.namespace in
        env.answer (get_route functions_namespace name) s.world ≡ (err e, w1)
        → e.not_found ≡ true
        → env.answer
            (create_route functions_namespace (route_literal libs function_name s.object))
            w1
          ≡ (ok route, w2)
        → reconcile_route env libs function_name s ≡ (
          returned route,
          record s {
            world = w2;
            calls =
                create_route functions_namespace (route_literal libs function_name s.object)
                ∷ get_route functions_namespace
                    (make_route_name function_name s.object.meta.name s.object.meta.namespace)
                ∷ s.calls;
          },
        )
  unfolding reconcile_route actions
  reconcile_route_missing function_name route e w1 w2 s ha missing hc =
      rw (ha, missing, make_route_plain libs function_name s.object, hc)

  -- The route of a Function is missing, and the server accepts the one that reconcileRoute creates. In a
  -- later reconcile of the Function, whose metadata is the same, the route that is read has the owner
  -- references that it was created with; and an object whose one owner reference is a controller
  -- reference of an owner is controlled by it. Then the first reconcileRoute makes the read and the
  -- creation and returns what the server answers, and the later one makes its read only and returns the
  -- route that it has read.
  pub reconcile_route-adopts :
      (function_name : String) (route route' : Route) (e : Error) (w1 w2 w3 : W)
      (s t : State W Function)
      → IsControllerRef libs
      → env.answer
          (get_route functions_namespace
            (make_route_name function_name s.object.meta.name s.object.meta.namespace))
          s.world
        ≡ (err e, w1)
      → e.not_found ≡ true
      → env.answer (create_route functions_namespace (route_literal libs function_name s.object)) w1
        ≡ (ok route, w2)
      → t.object.meta ≡ s.object.meta
      → route'.meta.owner_references
        ≡ (route_literal libs function_name s.object).meta.owner_references
      → env.answer
          (get_route functions_namespace
            (make_route_name function_name t.object.meta.name t.object.meta.namespace))
          t.world
        ≡ (ok route', w3)
      → (reconcile_route env libs function_name s ≡ (
        returned route,
        record s {
          world = w2;
          calls =
              create_route functions_namespace (route_literal libs function_name s.object)
              ∷ get_route functions_namespace
                  (make_route_name function_name s.object.meta.name s.object.meta.namespace)
              ∷ s.calls;
        },
      ))
        × (reconcile_route env libs function_name t ≡ (
          returned route',
          record t {
            world = w3;
            calls =
                get_route functions_namespace
                  (make_route_name function_name t.object.meta.name t.object.meta.namespace)
                ∷ t.calls;
          },
        ))
  unfolding route_literal
  reconcile_route-adopts function_name route route' e w1 w2 w3 s t controls ha missing hc same kept
        later =
      (
        reconcile_route_missing function_name route e w1 w2 s ha missing hc,
        reconcile_route_owned env libs function_name route' w3 t later (
            ap (libs.is_controlled_by route'.meta) same
            ∙ controls route'.meta s.object.meta (get_group_version_kind libs s.object) kept),
      )
