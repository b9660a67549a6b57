-- ===== src/Crds/Kept.antt =====
-- The config maps and the service that the workers of pkg/reconciler/functions and the reconciler of
-- pkg/reconciler/crds/crds.go hold, while both run.
use mathlib.Core.Path.{subst}
use Prim.Native.String.{◌++◌}
use knative_functions_contro.Common.{
  no_cycle, ℕ, suc, ◌≤◌, String, ◌≡◌, refl, sym, ap, ◌∙◌, arith, Bool-cases, inl, inr, ◌∷◌, ok,
  lookup, lookup_nil,
}
use knative_functions_contro.Kube.Objects.{ConfigMap, Service}
use knative_functions_contro.Kube.Api.{Env, update_service}
use knative_functions_contro.Kube.Action.{State, actions}
use knative_functions_contro.Kube.Libraries.{Libraries}
use knative_functions_contro.Duck.Types.{config_map_annotation}
use knative_functions_contro.Resources.Ksvc.{make_knative_service}
use knative_functions_contro.Functions.ServiceSync.{reconcile_service-carries}
use knative_functions_contro.Functions.Steps.{or_empty}
use knative_functions_contro.Functions.Workers.Service.{
  Stage, idle, failed, checked, holds, configured, Shared, can_begin, set_stage, checks, reads,
  stores, passes, updates, finishes, fails, observes,
}
use knative_functions_contro.Functions.Workers.Service
use knative_functions_contro.Functions.Workers.Held.{set_stage-keeps}
use knative_functions_contro.Functions.Workers.Recovery.{IsCarried}
use knative_functions_contro.Crds.Reconciler.{error, functions_namespace, found_service}
use knative_functions_contro.Crds.Services.{calls_of_catch}
use knative_functions_contro.Crds.Alongside.{
  Cluster, Phase, resting, has_map, has_service, Step, works, gets, looks, sends, leaves, Reach,
  here, next,
}

module _ (show : ℕ → String) where
  -- The config map was the server's once.
  abbrev pub IsDated : ℕ → ConfigMap → Type 0
  IsDated version cm = (k : ℕ) × (k ≤ version) × (cm.meta.resource_version ≡ show k)

  -- What holds of a worker.
  abbrev pub IsAt : ℕ → Stage → Type 0
  IsAt version idle = Unit
  IsAt version failed = Unit
  IsAt version (checked svc) = Unit
  IsAt version (holds svc cm) = IsDated version cm
  IsAt version (configured svc cm) = IsDated version cm

  -- What holds of the CRD reconciler.
  abbrev pub IsIn : ℕ → Phase → Type 0
  IsIn version resting = Unit
  IsIn version (has_map cm) = IsDated version cm
  IsIn version (has_service cm svc) = IsDated version cm

  IsAt-later : (v : ℕ) (stage : Stage) → IsAt v stage → IsAt (suc v) stage
  IsAt-later v idle h = tt
  IsAt-later v failed h = tt
  IsAt-later v (checked svc) h = tt
  IsAt-later v (holds svc cm) (k, bound, e) = (k, omega (arith, bound), e)
  IsAt-later v (configured svc cm) (k, bound, e) = (k, omega (arith, bound), e)

  IsIn-later : (v : ℕ) (phase : Phase) → IsIn v phase → IsIn (suc v) phase
  IsIn-later v resting h = tt
  IsIn-later v (has_map cm) (k, bound, e) = (k, omega (arith, bound), e)
  IsIn-later v (has_service cm svc) (k, bound, e) = (k, omega (arith, bound), e)

  pub record IsKept (c : Cluster) : Type 0 where
    pub carried : (a : ℕ) × IsCarried show c.shared a
    pub last_version : c.shared.server.meta.resource_version ≡ show c.shared.version
    pub workers : (i : ℕ) → IsAt c.shared.version (c.shared.workers i)
    pub phase : IsIn c.shared.version c.crd

module _ {W : Type 0} (env : Env W) (libs : Libraries) (function_name ns : String)
    (show : ℕ → String) (image : String) where
  -- What found_service sends for a service that it has found.
  found_service-sent :
      (expected svc svc' : Service) (st : State W (Unit {0}))
      → (found_service env libs expected (ok svc) st).1.calls
        ≡ update_service functions_namespace svc' ∷ st.calls
      → svc'.spec ≡ expected.spec
  unfolding found_service actions
  found_service-sent expected svc svc' st made =
      elim (Bool-cases (libs.spec_equal expected.spec svc.spec)) [
        | inl equal ↦ absurd (no_cycle _ st.calls (rw equal at made))
        | inr differs ↦
            let sent = rw differs at made in
            let it : record svc { spec = expected.spec } ≡ svc' = cc (
              calls_of_catch env libs
                  (update_service functions_namespace (record svc { spec = expected.spec }))
                  (λ x. error ("Failed to update the function service: " ++ x.message)) st,
              sent,
            ) in
            sym (ap (λ x. x.spec) it)
      ]

  -- A worker moves on.
  moved :
      (c : Cluster) (i : ℕ) (stage : Stage)
      → IsKept show c
      → (IsAt show c.shared.version (c.shared.workers i) → IsAt show c.shared.version stage)
      → IsKept show
          (record c { shared = record (c.shared) { workers = set_stage i stage c.shared.workers } })
  moved c i stage kept moves = record {
    carried = kept.carried;
    last_version = kept.last_version;
    workers = λ k.
        set_stage-keeps (IsAt show c.shared.version) i k stage c.shared.workers moves
          (kept.workers k);
    phase = kept.phase;
  }

  worked :
      {c : Cluster} {t : Shared}
      → Service.Step env libs function_name ns show c.shared t
      → IsKept show c
      → IsKept show (record c { shared = t })
  worked {c} (checks i svc free from) kept = moved c i (checked svc) kept (λ _. tt)
  worked {c} (reads i svc at) kept =
      moved c i _ kept (λ _. (c.shared.version, omega arith, kept.last_version))
  worked {c} (passes i svc cm at) kept =
      moved c i _ kept (λ _. subst (IsAt show c.shared.version) at (kept.workers i))
  worked {c} (finishes i svc svc' cm st at same) kept = moved c i idle kept (λ _. tt)
  worked {c} (fails i) kept = moved c i failed kept (λ _. tt)
  worked {c} (observes conditions) kept = record {
    carried = kept.carried;
    last_version = kept.last_version;
    workers = kept.workers;
    phase = kept.phase;
  }
  worked {c} (stores i svc cm cm' route st at made matches) kept =
      let (a, (bound, template, m, annotated)) = kept.carried in
      record {
        carried = (a, (omega (arith, bound), template, m, annotated));
        last_version = refl;
        workers = λ k.
            set_stage-keeps (IsAt show (suc c.shared.version)) i k _ c.shared.workers
              (λ _. (suc c.shared.version, omega arith, refl))
              (IsAt-later show c.shared.version (c.shared.workers k) (kept.workers k));
        phase = IsIn-later show c.shared.version c.crd kept.phase;
      }
  worked {c} (updates i svc svc' cm st at made matches) kept =
      let (_, carries, m, annotated) =
        reconcile_service-carries env libs function_name svc svc' cm st made in
      let (k, bound, e) = subst (IsAt show c.shared.version) at (kept.workers i) in
      record {
        carried = (k, (bound, carries ∙ e, m, annotated));
        last_version = kept.last_version;
        workers = λ l.
            set_stage-keeps (IsAt show c.shared.version) i l idle c.shared.workers (λ _. tt)
              (kept.workers l);
        phase = kept.phase;
      }

  Step-IsKept :
      {c d : Cluster}
      → Step env libs function_name ns show image c d
      → IsKept show c
      → IsKept show d
  unfolding make_knative_service lookup
  Step-IsKept (works step) kept = worked step kept
  Step-IsKept {c} (gets at) kept = record {
    carried = kept.carried;
    last_version = kept.last_version;
    workers = kept.workers;
    phase = (c.shared.version, omega arith, kept.last_version);
  }
  Step-IsKept {c} (looks cm svc at from) kept = record {
    carried = kept.carried;
    last_version = kept.last_version;
    workers = kept.workers;
    phase = subst (IsIn show c.shared.version) at kept.phase;
  }
  Step-IsKept {c} (sends cm svc svc' st at made matches) kept =
      let (k, bound, e) = subst (IsIn show c.shared.version) at kept.phase in
      let spec = found_service-sent _ svc svc' st made in
      record {
        carried = (
          k,
          (
            bound,
            ap (λ x. or_empty (lookup_nil config_map_annotation x.annotations)) spec ∙ e,
            _,
            ap (λ x. x.annotations) spec,
          ),
        );
        last_version = kept.last_version;
        workers = kept.workers;
        phase = tt;
      }
  Step-IsKept {c} leaves kept = record {
    carried = kept.carried;
    last_version = kept.last_version;
    workers = kept.workers;
    phase = tt;
  }

  pub Reach-IsKept :
      (cm : ConfigMap) (n r : ℕ) {c : Cluster}
      → Reach env libs function_name ns show image cm n r c
      → IsKept show c
  unfolding make_knative_service lookup
  Reach-IsKept cm n r here = record {
    carried = (n, (omega arith, refl, _, refl));
    last_version = refl;
    workers = λ i. tt;
    phase = tt;
  }
  Reach-IsKept cm n r (next reached step) = Step-IsKept step (Reach-IsKept cm n r reached)
