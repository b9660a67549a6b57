-- ===== src/Crds/Behind.antt =====
-- The reconciler of pkg/reconciler/crds/crds.go sends the service back to a version that the workers
-- of pkg/reconciler/functions have left, and nobody has anything to do then.
use knative_functions_contro.Common.{
  ℕ, String, ◌≡◌, ◌≢◌, sym, ap, false, Bool-cases, inl, inr, ◌∷◌, ok, lookup,
}
use knative_functions_contro.Kube.Objects.{ConfigMap, Service}
use knative_functions_contro.Kube.Api.{Env, update_service}
use knative_functions_contro.Kube.Action.{State, actions}
use knative_functions_contro.Kube.Libraries.{Libraries, JsonLaws}
use knative_functions_contro.Resources.Ksvc.{make_knative_service}
use knative_functions_contro.Functions.ServiceSync.{template_version}
use knative_functions_contro.Functions.Steps.{or_empty}
use knative_functions_contro.Functions.Workers.Service
use knative_functions_contro.Crds.Race.{IsSemantic}
use knative_functions_contro.Crds.Reconciler.{functions_namespace, found_service}
use knative_functions_contro.Crds.Services.{calls_of_catch}
use knative_functions_contro.Crds.Alongside.{Steps}

-- A service that carries another version than the one that is expected is not equal to it.
spec-differs :
    (libs : Libraries) (name image v : String) (svc : Service)
    → IsSemantic libs
    → template_version svc ≢ v
    → libs.spec_equal (make_knative_service name v image).spec svc.spec ≡ false
unfolding make_knative_service lookup
spec-differs libs name image v svc semantic ne =
    elim (Bool-cases (libs.spec_equal (make_knative_service name v image).spec svc.spec)) [
      | inr differs ↦ differs
      | inl equal ↦ absurd (ne (sym (ap or_empty (semantic _ svc.spec equal))))
    ]

module _ {W : Type 0} (env : Env W) (libs : Libraries) (laws : JsonLaws libs)
    (function_name ns : String) (show : ℕ → String) (distinct : (m n : ℕ) → show m ≡ show n → m ≡ n)
    (image : String) where
  pub found_service_sends :
      (svc : Service) (v : String) (st : State W (Unit {0}))
      → IsSemantic libs
      → template_version svc ≢ v
      → (found_service env libs (make_knative_service function_name v image) (ok svc) st).1.calls
        ≡ update_service functions_namespace
            (record svc { spec = (make_knative_service function_name v image).spec })
          ∷ st.calls
  unfolding found_service actions
  found_service_sends svc v st semantic ne =
      rw (spec-differs libs function_name image v svc semantic ne) (calls_of_catch env libs _ _ st)
