-- ===== src/Functions/Workers/Forward.antt =====
-- The version that the service carries never goes back, as long as only workers write it.
use mathlib.Core.Path.{subst}
use mathlib.Core.List.{Memᴰ}
use knative_functions_contro.Common.{
  ℕ, suc, ◌≤◌, String, ◌≡◌, refl, sym, ap, ◌∙◌, inl, inr, arith, some, ◌∷◌, lookup, Dict,
}
use knative_functions_contro.Kube.Objects.{ConfigMap, Service}
use knative_functions_contro.Kube.Api.{Env}
use knative_functions_contro.Kube.Libraries.{Libraries}
use knative_functions_contro.Resources.Ksvc.{make_knative_service}
use knative_functions_contro.Functions.ServiceSync.{template_version, reconcile_service-carries}
use knative_functions_contro.Functions.Workers.Service.{
  Stage, idle, failed, checked, holds, configured, Shared, set_stage, revised, Step, checks, reads,
  stores, passes, updates, finishes, fails, observes, Reach, here, next,
}
use knative_functions_contro.Functions.Workers.Held.{
  View, IsSeen, IsSeen-later, IsHeld, IsHeld-step, set_stage-keeps, view, IsSound,
}

module _ {W : Type 0} (env : Env W) (libs : Libraries) (function_name ns : String)
    (show : ℕ → String) (distinct : (m n : ℕ) → show m ≡ show n → m ≡ n) where
  -- A step keeps what is sound, and the service carries no earlier version behind it.
  abbrev pub Next : Shared → ℕ → Type 0
  Next t a = (b : ℕ) × (a ≤ b) × IsSound show t b

  -- The service, or one that the server had before.
  known :
      {s : Shared} (a : ℕ) (svc : Service)
      → IsSound show s a
      → Memᴰ svc (s.service ∷ s.past)
      → (j : ℕ) × IsSeen show (view show s a) svc j
  known {s} a svc sound (Memᴰ.head e) = (
    s.revision,
    (
      omega arith,
      ap (λ x. x.meta.resource_version) e ∙ sound.last_revision,
      a,
      omega arith,
      ap template_version e ∙ sound.template,
    ),
  )
  known a svc sound (Memᴰ.tail m) = sound.seen svc m

  -- A step of one worker that leaves the objects at the server.
  moved :
      (s : Shared) (a i : ℕ) (stage : Stage)
      → IsSound show s a
      → (IsHeld show (view show s a) (s.workers i) → IsHeld show (view show s a) stage)
      → Next (record s { workers = set_stage i stage s.workers }) a
  moved s a i stage sound moves = (
    a,
    omega arith,
    record {
      bound = sound.bound;
      template = sound.template;
      last_version = sound.last_version;
      last_revision = sound.last_revision;
      seen = sound.seen;
      held = λ k.
          set_stage-keeps (IsHeld show (view show s a)) i k stage s.workers moves (sound.held k);
      annotated = sound.annotated;
    },
  )

  -- A step that gives the service a new version.
  revises :
      (s : Shared) (a b i : ℕ) (svc : Service) (workers : ℕ → Stage)
      → a ≤ b
      → b ≤ s.version
      → template_version svc ≡ show b
      → (m : Dict String) × (svc.spec.annotations ≡ some m)
      → IsSound show s a
      → let t : Shared = record s {
        service = revised (show (suc s.revision)) svc;
        revision = suc s.revision;
        past = s.service ∷ s.past;
        workers = workers;
      } in
        ((k : ℕ) → IsHeld show (view show s a) (workers k)) → Next t a
  revises s a b i svc workers later bound carries annotated sound held =
      let w : View = record { revision = suc s.revision; version = s.version; carried = b } in
      (
        b,
        later,
        record {
          bound = bound;
          template = carries;
          last_version = sound.last_version;
          last_revision = refl;
          seen = λ x m.
              let (j, known_x) = known a x sound m in
              (j, IsSeen-later show (view show s a) w x j (omega arith) later known_x);
          held = λ k.
              IsHeld-step show (view show s a) w (workers k) (omega arith) later (inr refl)
                (held k);
          annotated = annotated;
        },
      )

  pub Step-Next :
      {s t : Shared} (a : ℕ) → Step env libs function_name ns show s t → IsSound show s a → Next t a
  Step-Next {s} a (checks i svc free from) sound =
      moved s a i (checked svc) sound (λ _. known a svc sound from)
  Step-Next {s} a (reads i svc at) sound =
      let (j, svc_seen) = subst (IsHeld show (view show s a)) at (sound.held i) in
      moved s a i (holds svc s.server) sound
        (λ _. (j, svc_seen, (s.version, omega arith, sound.last_version, λ _. sound.bound)))
  Step-Next {s} a (passes i svc cm at) sound =
      moved s a i (configured svc cm) sound
        (λ _. subst (IsHeld show (view show s a)) at (sound.held i))
  Step-Next {s} a (finishes i svc svc' cm st at kept) sound = moved s a i idle sound (λ _. tt)
  Step-Next {s} a (fails i) sound = moved s a i failed sound (λ _. tt)
  Step-Next {s} a (observes conditions) sound =
      revises s a a 0 (record (s.service) { conditions = conditions }) s.workers (omega arith)
        sound.bound sound.template sound.annotated sound sound.held
  Step-Next {s} a (updates i svc svc' cm st at made matches) sound =
      let (j, (old, n, c, behind, template), (k, bound, e, forward)) =
        subst (IsHeld show (view show s a)) at (sound.held i) in
      let (same_meta, carries, dict, annotated) =
        reconcile_service-carries env libs function_name svc svc' cm st made in
      let last : j ≡ s.revision =
        distinct j s.revision
          (sym n ∙ ap (λ m. m.resource_version) (sym same_meta) ∙ matches ∙ sound.last_revision) in
      revises s a k i svc' (set_stage i idle s.workers) (forward last) bound (carries ∙ e)
        (dict, annotated) sound
        (λ l.
          set_stage-keeps (IsHeld show (view show s a)) i l idle s.workers (λ _. tt) (sound.held l))
  Step-Next {s} a (stores i svc cm cm' route st at made matches) sound =
      let w : View = record { revision = s.revision; version = suc s.version; carried = a } in
      let (j, svc_seen, _) = subst (IsHeld show (view show s a)) at (sound.held i) in
      (
        a,
        omega arith,
        record {
          bound = omega (arith, sound.bound);
          template = sound.template;
          last_version = refl;
          last_revision = sound.last_revision;
          seen = sound.seen;
          held = λ l.
              set_stage-keeps (IsHeld show w) i l _ s.workers
                (λ _. (
                  j,
                  svc_seen,
                  (suc s.version, omega arith, refl, λ _. omega (arith, sound.bound)),
                ))
                (IsHeld-step show (view show s a) w (s.workers l) (omega arith) (omega arith)
                  (inl (refl, refl)) (sound.held l));
          annotated = sound.annotated;
        },
      )

  pub Reach-IsSound :
      (image : String) (cm : ConfigMap) (n r : ℕ) {s : Shared}
      → Reach env libs function_name ns show image cm n r s
      → (a : ℕ) × IsSound show s a
  unfolding make_knative_service lookup
  Reach-IsSound image cm n r here = (
    n,
    record {
      bound = omega arith;
      template = refl;
      last_version = refl;
      last_revision = refl;
      seen = λ svc m. elim m [ ];
      held = λ i. tt;
      annotated = (_, refl);
    },
  )
  Reach-IsSound image cm n r (next reached step) =
      let (a, sound) = Reach-IsSound image cm n r reached in
      let (b, _, later) = Step-Next a step sound in (b, later)

  -- Any number of workers reconcile Functions of one kind at the same time, and begin with the service
  -- that the CRD reconciler has created for the config map; what a worker finds of the service in its
  -- lister may be behind; the server accepts an update just with the current version of the object, and
  -- gives every version a text of its own; nobody else writes the config map, or the service but for
  -- its status. Then in every state that is reached the service
  -- carries a version that the config map has had, the present one or an earlier one, and the next
  -- step, whichever it is, leaves the service with that version or a later one.
  pub service-forward :
      (image : String) (cm : ConfigMap) (n r : ℕ) {s t : Shared}
      → Reach env libs function_name ns show image cm n r s
      → Step env libs function_name ns show s t
      → (a : ℕ) × (b : ℕ) × (a ≤ s.version)
        × (a ≤ b)
        × (b ≤ t.version)
        × (template_version s.service ≡ show a)
        × (template_version t.service ≡ show b)
  service-forward image cm n r reached step =
      let (a, sound) = Reach-IsSound image cm n r reached in
      let (b, later, next_sound) = Step-Next a step sound in
      (a, b, sound.bound, later, next_sound.bound, sound.template, next_sound.template)
