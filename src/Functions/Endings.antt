-- ===== src/Functions/Endings.antt =====
-- How Reconcile of pkg/reconciler/functions/functions.go ends, on every path.
use mathlib.Core.Path.{subst}
use knative_functions_contro.Common.{
  String, ◌≡◌, refl, sym, ap, ◌⊎◌, inl, inr, if◌then◌else◌, ◌∷◌, Error, Result-cases, ok, err,
  Outcome, returned, failed, panicked,
}
use knative_functions_contro.Kube.Objects.{Unstructured}
use knative_functions_contro.Kube.Api.{Env, get_function}
use knative_functions_contro.Kube.Action.{State, Outcome-cases, actions}
use knative_functions_contro.Kube.Libraries.{Libraries}
use knative_functions_contro.Duck.Types.{Function}
use knative_functions_contro.Functions.Reconciler.{
  reconcile_function, reconcile_original, reconcile_key,
}
use knative_functions_contro.Functions.Reported.{Report}
use knative_functions_contro.Functions.Reporting.{reconcile_function-reports}
use knative_functions_contro.Functions.Panicked.{Panic, reconcile_function-panics}
use knative_functions_contro.Functions.WriteBack.{
  loaded, IsConcluded, reconcile_key_unread, reconcile_original_panicked,
  reconcile_original-IsConcluded,
}

module _ {W : Type 0} (env : Env W) (libs : Libraries) (function_name : String) where
  -- The end, and how the reconcile of the Function that was read has ended before it.
  abbrev pub HasRun : Outcome (Unit {0}) × State W Function → Function → State W Function → Type 0
  HasRun y original s =
      (s1 : State W Function) × (((reconcile_function env libs function_name s ≡ (returned tt, s1))
          × IsConcluded env libs function_name y original (ok tt) s1)
        ⊎ (((x : Error) × (reconcile_function env libs function_name s ≡ (failed x, s1))
              × Report env libs function_name original x s1.object
              × IsConcluded env libs function_name y original (err x) s1)
            ⊎ ((reconcile_function env libs function_name s ≡ (panicked, s1))
                × Panic env libs function_name original
                × (y ≡ (panicked, s1)))))

  reconcile_original-HasRun :
      (original : Function) (s : State W Function)
      → HasRun
          (reconcile_original env libs function_name original s)
          original
          (loaded env libs function_name original s)
  reconcile_original-HasRun original s =
      let s0 : State W Function = loaded env libs function_name original s in
      let s1 : State W Function = (reconcile_function env libs function_name s0).1 in
      (
        s1,
        elim (Outcome-cases (reconcile_function env libs function_name s0).0) [
          | inl (tt, e) ↦
              let h : reconcile_function env libs function_name s0 ≡ (returned tt, s1) =
                ap (λ o. (o, s1)) e in
              inl (h, reconcile_original-IsConcluded env libs function_name original (ok tt) s s1 h)
          | inr (inl (x, e)) ↦
              let h : reconcile_function env libs function_name s0 ≡ (failed x, s1) =
                ap (λ o. (o, s1)) e in
              inr (
                inl (
                  x,
                  h,
                  (reconcile_function-reports env libs function_name s0 x s1 h).1,
                  reconcile_original-IsConcluded env libs function_name original (err x) s s1 h,
                ))
          | inr (inr e) ↦
              let h : reconcile_function env libs function_name s0 ≡ (panicked, s1) =
                ap (λ o. (o, s1)) e in
              inr (
                inr (
                  h,
                  (reconcile_function-panics env libs function_name s0 s1 h).1,
                  reconcile_original_panicked env libs function_name original s s1 h,
                ))
        ],
      )

  reconcile_key_read :
      (key namespace name : String) (u : Unstructured) (w : W) (s : State W Function)
      → libs.split_meta_namespace_key key ≡ ok (namespace, name)
      → env.answer (get_function namespace name) s.world ≡ (ok u, w)
      → reconcile_key env libs function_name key s
        ≡ reconcile_original env libs function_name
            (libs.from_unstructured u)
            (record s { world = w; calls = get_function namespace name ∷ s.calls })
  unfolding reconcile_key actions
  reconcile_key_read key namespace name u w s hk ha = rw (hk, ha) refl

  -- Reconcile, for any key and in any state. A key that does not split into a namespace and a name:
  -- no error, and nothing is called. Otherwise the Function is read first. If that fails, it is the
  -- only call, and its error is returned unless it says that the Function is gone. If the Function is
  -- there, reconcile runs on it. If it panics, so does Reconcile, in the same state; the namespace is
  -- not set then, or the route or the config map that was found does not give an entry, or the
  -- service's template has no annotations. If it returns an error, one condition of the status is
  -- marked False for the step that failed, by the error or by the object that is not ready. If it does
  -- not panic, and the status is semantically as it was read, the status is not written, and Reconcile
  -- ends as reconcile did, with an event of the error as its one more call; if it differs, the Function
  -- is serialised and its status written first, and if one of these fails, Reconcile returns that error
  -- instead, with the event UpdateFailed as its last call.
  pub reconcile_key-ends :
      (key : String) (s : State W Function)
      → ((e : Error) × (libs.split_meta_namespace_key key ≡ err e)
          × (reconcile_key env libs function_name key s ≡ (returned tt, s)))
        ⊎ ((namespace : String) × (name : String) × (libs.split_meta_namespace_key key
              ≡ ok (namespace, name))
            × (((u : Unstructured) × (w : W) × (env.answer (get_function namespace name) s.world
                    ≡ (ok u, w))
                  × HasRun
                      (reconcile_key env libs function_name key s)
                      (libs.from_unstructured u)
                      (record s {
                        world = w;
                        calls = get_function namespace name ∷ s.calls;
                        object = libs.from_unstructured u;
                      }))
                ⊎ ((x : Error) × (w : W) × (env.answer (get_function namespace name) s.world
                      ≡ (err x, w))
                    × (reconcile_key env libs function_name key s ≡ (
                      (if x.not_found then returned tt else failed x),
                      record s { world = w; calls = get_function namespace name ∷ s.calls },
                    )))))
  reconcile_key-ends key s = elim (Result-cases (libs.split_meta_namespace_key key)) [
    | inr (e, hk) ↦ inl (e, hk, unfold reconcile_key actions in rw hk refl)
    | inl ((namespace, name), hk) ↦
        let w : W = (env.answer (get_function namespace name) s.world).1 in
        inr (
          namespace,
          name,
          hk,
          elim (Result-cases (env.answer (get_function namespace name) s.world).0) [
            | inl (u, a) ↦
                let read : env.answer (get_function namespace name) s.world ≡ (ok u, w) =
                  ap (λ y. (y, w)) a in
                let after : State W Function = record s {
                  world = w;
                  calls = get_function namespace name ∷ s.calls;
                } in
                let original : Function = libs.from_unstructured u in
                inl (
                  u,
                  w,
                  read,
                  subst (λ y. HasRun y original (loaded env libs function_name original after))
                      (sym (reconcile_key_read key namespace name u w s hk read))
                      (reconcile_original-HasRun original after),
                )
            | inr (x, a) ↦
                let read : env.answer (get_function namespace name) s.world ≡ (err x, w) =
                  ap (λ y. (y, w)) a in
                inr (
                  x,
                  w,
                  read,
                  reconcile_key_unread env libs function_name key namespace name x w s hk read,
                )
          ],
        )
  ]
