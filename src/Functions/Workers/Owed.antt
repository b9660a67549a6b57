-- ===== src/Functions/Workers/Owed.antt =====
-- Who has still to bring the service up to the version that the config map has.
use mathlib.Core.Path.{subst}
use mathlib.Core.Logic.{if_pos, if_neg}
use native.Mathlib.Decide.{ℕ_discrete}
use knative_functions_contro.Common.{
  ℕ, String, ◌≡◌, ◌≢◌, refl, sym, ap, ◌∙◌, ◌⊎◌, inl, inr, arith, lookup,
}
use knative_functions_contro.Kube.Objects.{ConfigMap, Service}
use knative_functions_contro.Kube.Api.{Env}
use knative_functions_contro.Kube.Libraries.{Libraries}
use knative_functions_contro.Resources.Ksvc.{make_knative_service}
use knative_functions_contro.Functions.ServiceSync.{
  template_version, reconcile_service-carries, reconcile_service-kept,
}
use knative_functions_contro.Functions.Workers.Service.{
  Stage, idle, failed, checked, holds, configured, Shared, set_stage, Step, checks, reads, stores,
  passes, updates, finishes, fails, observes, Reach, here, next,
}
use knative_functions_contro.Functions.Workers.Held.{IsHeld, set_stage-keeps, view, IsSound}
use knative_functions_contro.Functions.Workers.Forward.{Step-Next, Reach-IsSound}

-- A worker that does not end without an error unless the service carries that version.
abbrev pub IsOwing : String → Stage → Type 0
IsOwing version idle = ⊥
IsOwing version failed = Unit
IsOwing version (checked svc) = Unit
IsOwing version (holds svc cm) = cm.meta.resource_version ≡ version
IsOwing version (configured svc cm) = cm.meta.resource_version ≡ version

pub set_stage-same :
    (i : ℕ) (stage : Stage) (workers : ℕ → Stage) → set_stage i stage workers i ≡ stage
set_stage-same i stage workers = if_pos (ℕ_discrete i i) refl stage (workers i)

module _ {W : Type 0} (env : Env W) (libs : Libraries) (function_name ns : String)
    (show : ℕ → String) (distinct : (m n : ℕ) → show m ≡ show n → m ≡ n) where
  abbrev pub IsOwed : Shared → Type 0
  IsOwed s =
      (template_version s.service ≡ show s.version)
      ⊎ ((i : ℕ) × IsOwing (show s.version) (s.workers i))

  -- A worker takes a step that leaves the objects at the server.
  IsOwed-moved :
      (s : Shared) (i : ℕ) (stage : Stage)
      → (IsOwing (show s.version) (s.workers i) → IsOwing (show s.version) stage)
      → IsOwed s
      → IsOwed (record s { workers = set_stage i stage s.workers })
  IsOwed-moved s i stage moves (inl same) = inl same
  IsOwed-moved s i stage moves (inr (k, owing)) =
      inr (k, set_stage-keeps (IsOwing (show s.version)) i k stage s.workers moves owing)

  -- A worker ends without an error, and with this service at the server.
  IsOwed-ended :
      (s : Shared) (i : ℕ) (svc : Service)
      → (template_version s.service ≡ show s.version → template_version svc ≡ show s.version)
      → (IsOwing (show s.version) (s.workers i) → template_version svc ≡ show s.version)
      → IsOwed s
      → IsOwed (record s { service = svc; workers = set_stage i idle s.workers })
  IsOwed-ended s i svc still done (inl same) = inl (still same)
  IsOwed-ended s i svc still done (inr (k, owing)) = elim (ℕ_discrete i k) [
    | yes e ↦ inl (done (subst (λ j. IsOwing (show s.version) (s.workers j)) (sym e) owing))
    | no ne ↦ inr (k, rw (if_neg (ℕ_discrete i k) ne idle (s.workers k)) owing)
  ]

  Step-IsOwed :
      {s t : Shared} (a : ℕ)
      → Step env libs function_name ns show s t
      → IsSound show s a
      → IsOwed s
      → IsOwed t
  Step-IsOwed {s} a (checks i svc free from) sound owed =
      IsOwed-moved s i (checked svc) (λ _. tt) owed
  Step-IsOwed {s} a (reads i svc at) sound owed =
      IsOwed-moved s i (holds svc s.server) (λ _. sound.last_version) owed
  Step-IsOwed {s} a (passes i svc cm at) sound owed =
      IsOwed-moved s i (configured svc cm) (λ h. subst (IsOwing (show s.version)) at h) owed
  Step-IsOwed {s} a (fails i) sound owed = IsOwed-moved s i failed (λ _. tt) owed
  Step-IsOwed {s} a (stores i svc cm cm' route st at made matches) sound owed =
      inr (i, rw (set_stage-same i _ s.workers) refl)
  Step-IsOwed {s} a (observes conditions) sound owed = owed
  Step-IsOwed {s} a (finishes i svc svc' cm st at kept) sound owed =
      IsOwed-ended s i s.service (λ same. same)
        (λ h.
          let (j, (_, n, c, behind, carries), read) =
            subst (IsHeld show (view show s a)) at (sound.held i) in
          let same : show c ≡ show s.version =
            sym carries
            ∙ reconcile_service-kept env libs function_name svc svc' cm st kept
            ∙ subst (IsOwing (show s.version)) at h in
          let last : c ≡ s.version = distinct c s.version same in
          sound.template ∙ ap show (omega (arith, last, behind, sound.bound)))
        owed
  Step-IsOwed {s} a (updates i svc svc' cm st at made matches) sound owed =
      let (b, later, after) =
        Step-Next env libs function_name ns show distinct a
          (updates i svc svc' cm st at made matches) sound in
      IsOwed-ended s i svc'
        (λ same.
          let last : a ≡ s.version = distinct a s.version (sym sound.template ∙ same) in
          after.template ∙ ap show (omega (arith, last, later, after.bound)))
        (λ h.
          (reconcile_service-carries env libs function_name svc svc' cm st made).1
          ∙ subst (IsOwing (show s.version)) at h)
        owed

  Reach-IsOwed :
      (image : String) (cm : ConfigMap) (n r : ℕ) {s : Shared}
      → Reach env libs function_name ns show image cm n r s
      → IsOwed s
  unfolding make_knative_service lookup
  Reach-IsOwed image cm n r here = inl refl
  Reach-IsOwed image cm n r (next reached step) =
      let (a, sound) = Reach-IsSound env libs function_name ns show distinct image cm n r reached in
      Step-IsOwed a step sound (Reach-IsOwed image cm n r reached)

  -- Any number of workers reconcile Functions of one kind at the same time, and begin with the service
  -- that the CRD reconciler has created for the config map; what a worker finds of the service in its
  -- lister may be behind; the server accepts an update just with the current version of the object, and
  -- gives every version a text of its own; nobody else writes the config map, or the service but for
  -- its status; and a reconcile that has failed is not given up, as it would be if its Function were
  -- deleted. Then in every state that is reached the service carries the version that the config map
  -- has, or some worker is not idle and has still to bring it there: its last reconcile has failed, or
  -- it has just checked the service, or the config map that it has got is the one at the server. So
  -- once all the workers have ended without an error, the service follows the config map.
  pub service-caught_up :
      (image : String) (cm : ConfigMap) (n r : ℕ) {s : Shared}
      → Reach env libs function_name ns show image cm n r s
      → (template_version s.service ≡ s.server.meta.resource_version)
        ⊎ ((i : ℕ) × (s.workers i ≢ idle) × IsOwing s.server.meta.resource_version (s.workers i))
  service-caught_up image cm n r {s} reached =
      let (a, sound) = Reach-IsSound env libs function_name ns show distinct image cm n r reached in
      rw sound.last_version elim (Reach-IsOwed image cm n r reached) [
        | inl same ↦ inl same
        | inr (i, owing) ↦ inr (i, (λ free. subst (IsOwing (show s.version)) free owing), owing)
      ]
