-- ===== src/Functions/WriteBack.antt =====
-- Reconcile of pkg/reconciler/functions/functions.go: what is read, when the status is written, and
-- which error is returned.
use Prim.Native.String.{◌++◌}
use knative_functions_contro.Common.{
  quote, String, ◌≡◌, refl, ap, ◌∙◌, ◌⊎◌, inl, inr, Bool-cases, Result-cases, Outcome, arith, true,
  false, ◌∷◌, List, from_result, Error, Result, ok, err, returned, failed, panicked, if◌then◌else◌,
}
use knative_functions_contro.Kube.Objects.{Unstructured}
use knative_functions_contro.Kube.Api.{
  Env, get_function, Call, update_function_status, warning_event,
}
use knative_functions_contro.Kube.Action.{State, actions, go_on}
use knative_functions_contro.Kube.Libraries.{Libraries}
use knative_functions_contro.Duck.Types.{Function}
use knative_functions_contro.Functions.Reconciler.{
  reconcile_function, write_back, finish, reconcile_original, reconcile_key,
}

-- The event of an error that reconcile returned, on top of the calls made so far.
abbrev pub with_event : Result (Unit {0}) → Function → List Call → List Call
with_event (ok _) fn calls = calls
with_event (err e) fn calls = warning_event fn.meta.name "InternalError" e.message ∷ calls

module _ {W : Type 0} (env : Env W) (libs : Libraries) (function_name : String) where
  -- The read of the Function fails.
  pub reconcile_key_unread :
      (key namespace name : String) (e : Error) (w : W) (s : State W Function)
      → libs.split_meta_namespace_key key ≡ ok (namespace, name)
      → env.answer (get_function namespace name) s.world ≡ (err e, w)
      → reconcile_key env libs function_name key s ≡ (
        (if e.not_found then returned tt else failed e),
        record s { world = w; calls = get_function namespace name ∷ s.calls },
      )
  unfolding reconcile_key actions
  reconcile_key_unread key namespace name e w s hk ha = rw (hk, ha) (ground arith)

  -- Reconcile begins with the Function that was read as the object behind the pointer.
  abbrev pub loaded : Function → State W Function → State W Function
  loaded original s = record s { object = original }

  after_reconcile :
      (original : Function) (r : Result (Unit {0})) (s s1 : State W Function)
      → reconcile_function env libs function_name (loaded original s) ≡ (from_result r, s1)
      → reconcile_original env libs function_name original s
        ≡ go_on
            (λ _. finish env libs function_name r)
            (write_back env libs function_name original.status s1).0
            (write_back env libs function_name original.status s1).1
  unfolding reconcile_original actions
  after_reconcile original (ok _) s s1 h = rw h
  after_reconcile original (err e) s s1 h = rw h

  finish_calls :
      (r : Result (Unit {0})) (s : State W Function)
      → ((finish env libs function_name r s).0 ≡ from_result r)
        × ((finish env libs function_name r s).1.calls ≡ with_event r s.object s.calls)
        × ((finish env libs function_name r s).1.object ≡ s.object)
  unfolding finish actions
  finish_calls (ok _) s = (refl, refl, refl)
  finish_calls (err e) s = (refl, refl, refl)

  -- The status is not written.
  reconcile_original_unchanged :
      (original : Function) (r : Result (Unit {0})) (s s1 : State W Function)
      → reconcile_function env libs function_name (loaded original s) ≡ (from_result r, s1)
      → libs.status_equal original.status s1.object.status ≡ true
      → ((reconcile_original env libs function_name original s).0 ≡ from_result r)
        × ((reconcile_original env libs function_name original s).1.calls
            ≡ with_event r s1.object s1.calls)
  unfolding write_back actions
  reconcile_original_unchanged original r s s1 h same =
      let e : reconcile_original env libs function_name original s
          ≡ finish env libs function_name r s1 =
        after_reconcile original r s s1 h ∙ (rw same) in
      (ap (λ x. x.0) e ∙ (finish_calls r s1).0, ap (λ x. x.1.calls) e ∙ (finish_calls r s1).1)

  -- The status is written.
  reconcile_original_written :
      (original : Function) (r : Result (Unit {0})) (raw : String) (u : Unstructured) (w : W)
      (s s1 : State W Function)
      → reconcile_function env libs function_name (loaded original s) ≡ (from_result r, s1)
      → libs.status_equal original.status s1.object.status ≡ false
      → libs.marshal_function s1.object ≡ ok raw
      → env.answer
          (update_function_status s1.object.meta.namespace (libs.unmarshal_unstructured raw))
          s1.world
        ≡ (ok u, w)
      → ((reconcile_original env libs function_name original s).0 ≡ from_result r)
        × ((reconcile_original env libs function_name original s).1.calls
            ≡ with_event r s1.object (
                update_function_status s1.object.meta.namespace (libs.unmarshal_unstructured raw)
                ∷ s1.calls))
  unfolding write_back actions
  reconcile_original_written original r raw u w s s1 h differs hm ha =
      let s2 : State W Function = record s1 {
        world = w;
        calls =
            update_function_status s1.object.meta.namespace (libs.unmarshal_unstructured raw)
            ∷ s1.calls;
      } in
      let e : reconcile_original env libs function_name original s
          ≡ finish env libs function_name r s2 =
        after_reconcile original r s s1 h ∙ (rw (differs, hm, ha)) in
      (ap (λ x. x.0) e ∙ (finish_calls r s2).0, ap (λ x. x.1.calls) e ∙ (finish_calls r s2).1)

  -- The write of the status is refused.
  reconcile_original_unwritten :
      (original : Function) (r : Result (Unit {0})) (raw : String) (x : Error) (w : W)
      (s s1 : State W Function)
      → reconcile_function env libs function_name (loaded original s) ≡ (from_result r, s1)
      → libs.status_equal original.status s1.object.status ≡ false
      → libs.marshal_function s1.object ≡ ok raw
      → env.answer
          (update_function_status s1.object.meta.namespace (libs.unmarshal_unstructured raw))
          s1.world
        ≡ (err x, w)
      → ((reconcile_original env libs function_name original s).0 ≡ failed x)
        × ((reconcile_original env libs function_name original s).1.calls
            ≡ warning_event s1.object.meta.name "UpdateFailed"
                ("Failed to update status for " ++ quote s1.object.meta.name ++ ": " ++ x.message)
              ∷ update_function_status s1.object.meta.namespace (libs.unmarshal_unstructured raw)
              ∷ s1.calls)
  unfolding write_back actions
  reconcile_original_unwritten original r raw x w s s1 h differs hm ha =
      let e = after_reconcile original r s s1 h in
      (ap (λ y. y.0) e ∙ rw (differs, hm, ha), ap (λ y. y.1.calls) e ∙ rw (differs, hm, ha))

  -- The Function cannot be serialised.
  reconcile_original_unserialised :
      (original : Function) (r : Result (Unit {0})) (x : Error) (s s1 : State W Function)
      → reconcile_function env libs function_name (loaded original s) ≡ (from_result r, s1)
      → libs.status_equal original.status s1.object.status ≡ false
      → libs.marshal_function s1.object ≡ err x
      → ((reconcile_original env libs function_name original s).0 ≡ failed x)
        × ((reconcile_original env libs function_name original s).1.calls
            ≡ warning_event s1.object.meta.name "UpdateFailed"
                ("Failed to update status for " ++ quote s1.object.meta.name ++ ": " ++ x.message)
              ∷ s1.calls)
  unfolding write_back actions
  reconcile_original_unserialised original r x s s1 h differs hm =
      let e = after_reconcile original r s s1 h in
      (ap (λ y. y.0) e ∙ rw (differs, hm), ap (λ y. y.1.calls) e ∙ rw (differs, hm))

  abbrev pub status_write : State W Function → String → Call
  status_write s1 raw =
      update_function_status s1.object.meta.namespace (libs.unmarshal_unstructured raw)

  abbrev pub failure_event : State W Function → Error → Call
  failure_event s1 x =
      warning_event s1.object.meta.name "UpdateFailed"
        ("Failed to update status for " ++ quote s1.object.meta.name ++ ": " ++ x.message)

  -- The outcome, and the calls made.
  abbrev pub EndsWith :
      Outcome (Unit {0}) × State W Function → Outcome (Unit {0}) → List Call → Type 0
  EndsWith y o calls = (y.0 ≡ o) × (y.1.calls ≡ calls)

  -- How Reconcile goes on behind a reconcile that has ended in this state. If the status is
  -- semantically as it was read, it is not written. If it differs, the Function is serialised and
  -- written; if it cannot be serialised, or the write is refused, that error is returned.
  abbrev pub IsConcluded :
      Outcome (Unit {0}) × State W Function
      → Function
      → Result (Unit {0})
      → State W Function
      → Type 0
  IsConcluded y original r s1 =
      ((libs.status_equal original.status s1.object.status ≡ true)
        × EndsWith y (from_result r) (with_event r s1.object s1.calls))
      ⊎ ((libs.status_equal original.status s1.object.status ≡ false)
          × (((x : Error) × (libs.marshal_function s1.object ≡ err x)
                × EndsWith y (failed x) (failure_event s1 x ∷ s1.calls))
              ⊎ ((raw : String) × (libs.marshal_function s1.object ≡ ok raw)
                  × (((u : Unstructured) × (w : W) × (env.answer (status_write s1 raw) s1.world
                          ≡ (ok u, w))
                        × EndsWith y (from_result r)
                            (with_event r s1.object (status_write s1 raw ∷ s1.calls)))
                      ⊎ ((x : Error) × (w : W) × (env.answer (status_write s1 raw) s1.world
                            ≡ (err x, w))
                          × EndsWith y (failed x)
                              (failure_event s1 x ∷ status_write s1 raw ∷ s1.calls))))))

  -- A panic of reconcile is not recovered.
  pub reconcile_original_panicked :
      (original : Function) (s t : State W Function)
      → reconcile_function env libs function_name (loaded original s) ≡ (panicked, t)
      → reconcile_original env libs function_name original s ≡ (panicked, t)
  unfolding reconcile_original actions
  reconcile_original_panicked original s t h = rw h refl

  pub reconcile_original-IsConcluded :
      (original : Function) (r : Result (Unit {0})) (s s1 : State W Function)
      → reconcile_function env libs function_name (loaded original s) ≡ (from_result r, s1)
      → IsConcluded (reconcile_original env libs function_name original s) original r s1
  reconcile_original-IsConcluded original r s s1 h =
      elim (Bool-cases (libs.status_equal original.status s1.object.status)) [
        | inl same ↦ inl (same, reconcile_original_unchanged original r s s1 h same)
        | inr differs ↦ inr (
          differs,
          elim (Result-cases (libs.marshal_function s1.object)) [
            | inr (x, hm) ↦
                inl (x, hm, reconcile_original_unserialised original r x s s1 h differs hm)
            | inl (raw, hm) ↦
                let w : W = (env.answer (status_write s1 raw) s1.world).1 in
                inr (
                  raw,
                  hm,
                  elim (Result-cases (env.answer (status_write s1 raw) s1.world).0) [
                    | inl (u, a) ↦ inl (
                      u,
                      w,
                      ap (λ y. (y, w)) a,
                      reconcile_original_written original r raw u w s s1 h differs hm
                          (ap (λ y. (y, w)) a),
                    )
                    | inr (x, a) ↦ inr (
                      x,
                      w,
                      ap (λ y. (y, w)) a,
                      reconcile_original_unwritten original r raw x w s s1 h differs hm
                          (ap (λ y. (y, w)) a),
                    )
                  ],
                )
          ],
        )
      ]
