-- ===== src/Functions/ServiceSync.antt =====
-- reconcileService of pkg/reconciler/functions/functions.go: the service's template follows the
-- version of the config map.
use knative_functions_contro.Common.{
  no_cycle, Option-cases, String, ◌≡◌, ◌≢◌, refl, sym, ap, ◌∙◌, ◌⊎◌, inl, inr, arith, none, some,
  ◌∷◌, ◌==◌, eq_iff, eq_refl, Bool-cases, if◌then◌else◌, Dict, lookup, lookup_nil, insert,
  lookup-insert, panicked, returned,
}
use knative_functions_contro.Kube.Objects.{Service, ConfigMap}
use knative_functions_contro.Kube.Api.{Env, update_service}
use knative_functions_contro.Kube.Action.{State, actions}
use knative_functions_contro.Kube.Libraries.{Libraries}
use knative_functions_contro.Duck.Types.{Function, config_map_annotation}
use knative_functions_contro.Functions.Steps.{
  or_empty, with_version, save_version, reconcile_service,
}

-- The version that the template carries; "" if it carries none.
abbrev pub template_version : Service → String
template_version service = or_empty (lookup_nil config_map_annotation service.spec.annotations)

lookup-with_version :
    (service : Service) (version : String) (m : Dict String) (j : String)
    → lookup_nil j (with_version service version m).spec.annotations
      ≡ (if config_map_annotation == j then some version else lookup j m)
unfolding with_version
lookup-with_version service version m j = lookup-insert config_map_annotation j version m

pub template_version-with_version :
    (service : Service) (version : String) (m : Dict String)
    → template_version (with_version service version m) ≡ version
template_version-with_version service version m =
    ap or_empty (lookup-with_version service version m config_map_annotation)

module _ {W : Type 0} (env : Env W) (libs : Libraries) (function_name : String) where
  pub reconcile_service_same :
      (service : Service) (cm : ConfigMap) (s : State W Function)
      → template_version service ≡ cm.meta.resource_version
      → reconcile_service env libs function_name service cm s ≡ (returned service, s)
  unfolding reconcile_service actions
  reconcile_service_same service cm s h = rw (h, eq_refl)

  pub reconcile_service_differs :
      (service : Service) (cm : ConfigMap) (s : State W Function)
      → template_version service ≢ cm.meta.resource_version
      → reconcile_service env libs function_name service cm s
        ≡ save_version env libs function_name service cm.meta.resource_version
            service.spec.annotations s
  unfolding reconcile_service actions
  reconcile_service_differs service cm s h =
      ground (arith, h, eq_iff (template_version service) cm.meta.resource_version)

  pub calls_of_update :
      (service : Service) (cm : ConfigMap) (m : Dict String) (s : State W Function)
      → service.spec.annotations ≡ some m
      → template_version service ≢ cm.meta.resource_version
      → (reconcile_service env libs function_name service cm s).1.calls
        ≡ update_service service.meta.namespace (with_version service cm.meta.resource_version m)
          ∷ s.calls
  unfolding save_version actions with_version
  calls_of_update service cm m s h ne =
      ap (λ r. r.1.calls)
        (reconcile_service_differs service cm s ne
          ∙ ap (λ o. save_version env libs function_name service cm.meta.resource_version o s) h)

  -- An update that is sent has the metadata of the service and the version of the config map.
  pub reconcile_service-carries :
      (service service' : Service) (cm : ConfigMap) (s : State W Function)
      → (reconcile_service env libs function_name service cm s).1.calls
        ≡ update_service service.meta.namespace service' ∷ s.calls
      → (service'.meta ≡ service.meta)
        × (template_version service' ≡ cm.meta.resource_version)
        × (m : Dict String) × (service'.spec.annotations ≡ some m)
  unfolding save_version actions with_version
  reconcile_service-carries service service' cm s made =
      elim (Bool-cases (template_version service == cm.meta.resource_version)) [
        | inl same ↦
            let e = (eq_iff (template_version service) cm.meta.resource_version).0 same in
            absurd (
              no_cycle _ s.calls
                (ap (λ r. r.1.calls) (sym (reconcile_service_same service cm s e)) ∙ made))
        | inr other ↦
            let ne : template_version service ≢ cm.meta.resource_version =
              λ e. cc (other, (eq_iff (template_version service) cm.meta.resource_version).1 e) in
            elim (Option-cases service.spec.annotations) [
              | inl nil ↦ absurd (
                  no_cycle _ s.calls (
                    ap (λ r. r.1.calls)
                      (sym (
                          ap
                            (λ o.
                              save_version env libs function_name service cm.meta.resource_version o
                                s)
                            nil)
                        ∙ sym (reconcile_service_differs service cm s ne))
                    ∙ made))
              | inr (m, e) ↦
                  let it : with_version service cm.meta.resource_version m ≡ service' =
                    cc (calls_of_update service cm m s e ne, made) in
                  (
                    sym (ap (λ x. x.meta) it),
                    sym (ap template_version it)
                        ∙ template_version-with_version service cm.meta.resource_version m,
                    insert config_map_annotation cm.meta.resource_version m,
                    sym (ap (λ x. x.spec.annotations) it),
                  )
            ]
      ]

  -- A service that is returned with no call carries the version.
  pub reconcile_service-kept :
      (service service' : Service) (cm : ConfigMap) (s : State W Function)
      → reconcile_service env libs function_name service cm s ≡ (returned service', s)
      → template_version service ≡ cm.meta.resource_version
  unfolding save_version actions
  reconcile_service-kept service service' cm s kept =
      elim (Bool-cases (template_version service == cm.meta.resource_version)) [
        | inl same ↦ (eq_iff (template_version service) cm.meta.resource_version).0 same
        | inr other ↦
            let ne : template_version service ≢ cm.meta.resource_version =
              λ e. cc (other, (eq_iff (template_version service) cm.meta.resource_version).1 e) in
            elim (Option-cases service.spec.annotations) [
              | inl nil ↦
                  let stopped : (panicked, s) ≡ (returned service', s) =
                    sym (
                      reconcile_service_differs service cm s ne
                      ∙ ap
                          (λ o.
                            save_version env libs function_name service cm.meta.resource_version o
                              s)
                          nil)
                    ∙ kept in
                  cc stopped
              | inr (m, e) ↦ absurd (
                  no_cycle _ s.calls
                    (sym (ap (λ r. r.1.calls) kept) ∙ calls_of_update service cm m s e ne))
            ]
      ]

  -- A write to a nil map panics.
  reconcile_service_nil_annotations :
      (service : Service) (cm : ConfigMap) (s : State W Function)
      → service.spec.annotations ≡ none
      → template_version service ≢ cm.meta.resource_version
      → reconcile_service env libs function_name service cm s ≡ (panicked, s)
  unfolding save_version actions
  reconcile_service_nil_annotations service cm s h ne =
      reconcile_service_differs service cm s ne
      ∙ ap (λ o. save_version env libs function_name service cm.meta.resource_version o s) h

  -- What reconcileService has done with a service, and what it leaves for the next time.
  abbrev pub IsSynced : Service → ConfigMap → State W Function → Dict String → Service → Type 0
  IsSynced service cm s m service' =
      ((reconcile_service env libs function_name service cm s).1.calls
        ≡ update_service service.meta.namespace service' ∷ s.calls)
      × ((j : String)
          → lookup_nil j service'.spec.annotations
            ≡ (if config_map_annotation == j then some cm.meta.resource_version else lookup j m))
      × (service'.meta ≡ service.meta)
      × (service'.spec.containers ≡ service.spec.containers)
      × (service'.spec.volumes ≡ service.spec.volumes)
      × ((t : State W Function)
          → reconcile_service env libs function_name service' cm t ≡ (returned service', t))

  -- A service whose template carries the version of the config map already is left alone, with no
  -- call. Otherwise, if its template has annotations, one call is made, an update by the service with
  -- that version in its template: its metadata, the other annotations, the containers and the volumes
  -- are as they were, and a reconcile of the service so updated makes no call. If the annotations are
  -- a nil map, it panics, with no call.
  pub reconcile_service-syncs :
      (service : Service) (cm : ConfigMap) (s : State W Function)
      → ((template_version service ≡ cm.meta.resource_version)
          × (reconcile_service env libs function_name service cm s ≡ (returned service, s)))
        ⊎ ((template_version service ≢ cm.meta.resource_version)
            × (((m : Dict String) × (service' : Service) × (service.spec.annotations ≡ some m)
                  × IsSynced service cm s m service')
                ⊎ ((service.spec.annotations ≡ none)
                    × (reconcile_service env libs function_name service cm s ≡ (panicked, s)))))
  reconcile_service-syncs service cm s =
      elim (Bool-cases (template_version service == cm.meta.resource_version)) [
        | inl same ↦
            let e = (eq_iff (template_version service) cm.meta.resource_version).0 same in
            inl (e, reconcile_service_same service cm s e)
        | inr other ↦
            let ne : template_version service ≢ cm.meta.resource_version =
              λ e. cc (other, (eq_iff (template_version service) cm.meta.resource_version).1 e) in
            inr (
              ne,
              elim (Option-cases service.spec.annotations) [
                | inl nil ↦ inr (nil, reconcile_service_nil_annotations service cm s nil ne)
                | inr (m, e) ↦
                    let service' = with_version service cm.meta.resource_version m in
                    inl (
                      m,
                      service',
                      e,
                      (
                        calls_of_update service cm m s e ne,
                        lookup-with_version service cm.meta.resource_version m,
                        unfold with_version in refl,
                        unfold with_version in refl,
                        unfold with_version in refl,
                        λ t.
                            reconcile_service_same service' cm t
                              (template_version-with_version service cm.meta.resource_version m),
                      ),
                    )
              ],
            )
      ]
