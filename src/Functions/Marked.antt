-- ===== src/Functions/Marked.antt =====
-- The steps of reconcile whose error is marked in the status: pkg/reconciler/functions/functions.go.
use knative_functions_contro.Common.{◌≡◌, sym, ap, ◌∙◌, Error, Outcome, returned, failed, panicked}
use knative_functions_contro.Kube.Action.{State, Action, catch, recover, actions}
use knative_functions_contro.Kube.Inversion.{Ends, Returns}
use knative_functions_contro.Kube.Failures.{FailsWith}
use knative_functions_contro.Duck.Types.{Function, FunctionStatus}
use knative_functions_contro.Functions.Reconciler.{mark_and_fail}
use knative_functions_contro.Functions.Steps.{with_status}

module _ {W A : Type 0} (mark : Error → FunctionStatus → FunctionStatus) where
  recover_marked-fails :
      (r : Outcome A) (s : State W Function) (x : Error) (t : State W Function)
      → recover (mark_and_fail mark) r s ≡ (failed x, t)
      → Ends (r, s) (failed x) s × (t.object ≡ with_status (mark x) s.object)
  unfolding actions
  recover_marked-fails (returned a) s x t h = cc h
  recover_marked-fails (failed e) s x t h =
      let same : e ≡ x = cc h in
      (
        ap (λ y. (failed y, s)) same,
        sym (ap (λ q. q.1.object) h) ∙ ap (λ y. with_status (mark y) s.object) same,
      )
  recover_marked-fails panicked s x t h = cc h

  recover_marked-inv :
      (r : Outcome A) (s : State W Function) (a : A) (t : State W Function)
      → recover (mark_and_fail mark) r s ≡ (returned a, t)
      → Ends (r, s) (returned a) t
  unfolding actions
  recover_marked-inv (returned b) s a t h = h
  recover_marked-inv (failed e) s a t h = cc h
  recover_marked-inv panicked s a t h = cc h

  -- A step whose failure is marked has failed, and left the object alone.
  pub marked-fails :
      (m : Action W Function A) (fn : Function) (s : State W Function) (x : Error)
      (t : State W Function)
      → (m s).1.object ≡ s.object
      → s.object ≡ fn
      → FailsWith (catch m (mark_and_fail mark)) s x t
      → (u : State W Function) × FailsWith m s x u × (t.object ≡ with_status (mark x) fn)
  unfolding actions
  marked-fails m fn s x t keeps at h =
      let (first, marked) = recover_marked-fails (m s).0 (m s).1 x t h in
      ((m s).1, first, marked ∙ ap (with_status (mark x)) (keeps ∙ at))

  pub marked-inv :
      (m : Action W Function A) (fn : Function) (s : State W Function) (a : A)
      (t : State W Function)
      → (m s).1.object ≡ s.object
      → s.object ≡ fn
      → Returns (catch m (mark_and_fail mark)) s a t
      → Returns m s a t × (t.object ≡ fn)
  unfolding actions
  marked-inv m fn s a t keeps at h =
      let first = recover_marked-inv (m s).0 (m s).1 a t h in
      (first, sym (ap (λ q. q.1.object) first) ∙ keeps ∙ at)
