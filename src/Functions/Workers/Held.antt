-- ===== src/Functions/Workers/Held.antt =====
-- What holds of the services and the config maps that the workers hold.
use native.Mathlib.Decide.{ℕ_discrete}
use mathlib.Core.List.{Memᴰ}
use mathlib.Core.Logic.{dite}
use knative_functions_contro.Common.{
  ℕ, suc, ◌≤◌, String, ◌≡◌, sym, ◌∙◌, ◌⊎◌, inl, inr, arith, some, Dict,
}
use mathlib.Core.Path.{subst}
use knative_functions_contro.Kube.Objects.{ConfigMap, Service}
use knative_functions_contro.Functions.ServiceSync.{template_version}
use knative_functions_contro.Functions.Workers.Service.{
  Stage, idle, failed, checked, holds, configured, Shared, set_stage,
}

-- The numbers of the versions of the service and of the config map, and the number that the service
-- carries.
pub record View : Type 0 where
  pub revision : ℕ
  pub version : ℕ
  pub carried : ℕ

-- The revision stays, and what the service carries; or it is the next.
abbrev Moves : View → View → Type 0
Moves v w = ((w.revision ≡ v.revision) × (w.carried ≡ v.carried)) ⊎ (w.revision ≡ suc v.revision)

revision_grows : (v w : View) → Moves v w → v.revision ≤ w.revision
revision_grows v w (inl (e, c)) = omega (arith, e)
revision_grows v w (inr e) = omega (arith, e)

module _ (show : ℕ → String) where
  -- A service that the server had: its version was given out, and what it carries is not later than
  -- what the server's carries.
  abbrev pub IsSeen : View → Service → ℕ → Type 0
  IsSeen v svc j =
      (j ≤ v.revision)
      × (svc.meta.resource_version ≡ show j)
      × (c : ℕ) × (c ≤ v.carried)
      × (template_version svc ≡ show c)

  -- The config map that goes with it: if the service is still the server's, it carries no later version.
  abbrev pub IsRead : View → ConfigMap → ℕ → Type 0
  IsRead v cm j =
      (k : ℕ) × (k ≤ v.version)
      × (cm.meta.resource_version ≡ show k)
      × (j ≡ v.revision → v.carried ≤ k)

  abbrev pub IsHeld : View → Stage → Type 0
  IsHeld v idle = Unit
  IsHeld v failed = Unit
  IsHeld v (checked svc) = (j : ℕ) × IsSeen v svc j
  IsHeld v (holds svc cm) = (j : ℕ) × IsSeen v svc j × IsRead v cm j
  IsHeld v (configured svc cm) = (j : ℕ) × IsSeen v svc j × IsRead v cm j

  IsRead-later :
      (v w : View) (cm : ConfigMap) (j : ℕ)
      → v.version ≤ w.version
      → (j ≡ w.revision → (j ≡ v.revision) × (w.carried ≤ v.carried))
      → IsRead v cm j
      → IsRead w cm j
  IsRead-later v w cm j grown same (k, bound, e, forward) =
      (k, omega (arith, bound, grown), e, λ h. omega (arith, forward (same h).0, (same h).1))

  pub IsSeen-later :
      (v w : View) (svc : Service) (j : ℕ)
      → v.revision ≤ w.revision
      → v.carried ≤ w.carried
      → IsSeen v svc j
      → IsSeen w svc j
  IsSeen-later v w svc j grown later (bound, n, c, behind, e) =
      (omega (arith, bound, grown), n, c, omega (arith, behind, later), e)

  -- The config map may have got a new version, or the service, and what was held before is not the
  -- server's any more then.
  IsRead-step :
      (v w : View) (svc : Service) (cm : ConfigMap) (j : ℕ)
      → v.version ≤ w.version
      → Moves v w
      → IsSeen v svc j
      → IsRead v cm j
      → IsRead w cm j
  IsRead-step v w svc cm j grown (inl (e, c)) seen =
      IsRead-later v w cm j grown (λ h. (h ∙ e, omega (arith, c)))
  IsRead-step v w svc cm j grown (inr e) (bound, n, c, behind, t) =
      IsRead-later v w cm j grown (λ h. absurd (omega (arith, bound, e, h)))

  -- A step of the server keeps what holds of a worker that does not take part in it.
  pub IsHeld-step :
      (v w : View) (stage : Stage)
      → v.version ≤ w.version
      → v.carried ≤ w.carried
      → Moves v w
      → IsHeld v stage
      → IsHeld w stage
  IsHeld-step v w idle grown later moves h = tt
  IsHeld-step v w failed grown later moves h = tt
  IsHeld-step v w (checked svc) grown later moves (j, seen) =
      (j, IsSeen-later v w svc j (revision_grows v w moves) later seen)
  IsHeld-step v w (holds svc cm) grown later moves (j, seen, read) = (
    j,
    IsSeen-later v w svc j (revision_grows v w moves) later seen,
    IsRead-step v w svc cm j grown moves seen read,
  )
  IsHeld-step v w (configured svc cm) grown later moves (j, seen, read) = (
    j,
    IsSeen-later v w svc j (revision_grows v w moves) later seen,
    IsRead-step v w svc cm j grown moves seen read,
  )

  abbrev pub view : Shared → ℕ → View
  view s carried = record { revision = s.revision; version = s.version; carried = carried }

  pub record IsSound (s : Shared) (carried : ℕ) : Type 0 where
    pub bound : carried ≤ s.version
    pub template : template_version s.service ≡ show carried
    pub last_version : s.server.meta.resource_version ≡ show s.version
    pub last_revision : s.service.meta.resource_version ≡ show s.revision
    pub seen : (svc : Service) → Memᴰ svc s.past → (j : ℕ) × IsSeen (view s carried) svc j
    pub held : (i : ℕ) → IsHeld (view s carried) (s.workers i)
    pub annotated : (m : Dict String) × (s.service.spec.annotations ≡ some m)

-- What holds of each worker still does when one has moved on to a stage of which it holds, given that
-- it held of the stage before.
pub set_stage-keeps :
    (P : Stage → Type 0) (i j : ℕ) (stage : Stage) (workers : ℕ → Stage)
    → (P (workers i) → P stage)
    → P (workers j)
    → P (set_stage i stage workers j)
set_stage-keeps P i j stage workers moves h =
    elim (ℕ_discrete i j) as (λ d. P (dite d (λ _. stage) (λ _. workers j))) [
      | yes e ↦ moves (subst (λ k. P (workers k)) (sym e) h)
      | no _ ↦ h
    ]
