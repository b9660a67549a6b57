-- ===== src/Crds/Endings.antt =====
-- How Reconcile of pkg/reconciler/crds/crds.go ends, on every path.
use knative_functions_contro.Common.{
  String, ◌≡◌, sym, ap, ◌∙◌, ◌⊎◌, inl, inr, Option-cases, none, some, Error, Result, ok, err,
  returned, failed, from_result,
}
use knative_functions_contro.Kube.Objects.{CustomResourceDefinition}
use knative_functions_contro.Kube.Api.{Env, get_crd}
use knative_functions_contro.Kube.Action.{State, Outcome-cases, call}
use knative_functions_contro.Kube.Inversion.{
  Ends, Returns, attempt-inv, bind-inv, if-inv, pure-inv, fail-inv,
}
use knative_functions_contro.Kube.Failures.{
  FailsWith, bind-fails, attempt-fails, if-fails, pure-fails, fail-fails,
}
use knative_functions_contro.Crds.Total.{reconcile_name-NeverPanics}
use knative_functions_contro.Kube.Libraries.{Libraries}
use knative_functions_contro.Crds.Reconciler.{
  unless_deleted, reconcile_crd, found_crd, reconcile_name,
}
use knative_functions_contro.Crds.Provided.{IsGiven, IsMissing, IsProvided, reconcile_crd-provides}
use knative_functions_contro.Crds.Refused.{IsBroken}
use knative_functions_contro.Crds.Unprovided.{IsRefused, reconcile_crd-fails}

module _ {W : Type 0} (env : Env W) (libs : Libraries) (ns : String) where
  -- What a reconcile that reports no error has done: the definition is gone, or is being deleted, and
  -- then nothing more was called; or it has got what it needs.
  abbrev pub IsDone : String → State W (Unit {0}) → State W (Unit {0}) → Type 0
  IsDone name s t =
      IsMissing env libs s (get_crd name) t
      ⊎ ((def : CustomResourceDefinition) × (u : State W (Unit {0})) × IsGiven env libs s
            (get_crd name) def u
          × (((stamp : String) × (def.meta.deletion_timestamp ≡ some stamp) × (u ≡ t))
              ⊎ ((def.meta.deletion_timestamp ≡ none) × IsProvided env libs def u t)))

  -- Why a reconcile reports the error.
  abbrev pub IsStopped : String → State W (Unit {0}) → Error → State W (Unit {0}) → Type 0
  IsStopped name s x t =
      IsBroken env libs s (get_crd name) x t
      ⊎ ((def : CustomResourceDefinition) × (u : State W (Unit {0})) × IsGiven env libs s
            (get_crd name) def u
          × (def.meta.deletion_timestamp ≡ none)
          × IsRefused env libs ns def u x t)

module _ {W : Type 0} (env : Env W) (libs : Libraries) (ns : String)
    (is_set : libs.system_namespace ≡ some ns) where
  reconcile_crd-deleted :
      (def : CustomResourceDefinition) (u t : State W (Unit {0})) (stamp : String)
      → def.meta.deletion_timestamp ≡ some stamp
      → Returns (reconcile_crd env libs def) u tt t
      → u ≡ t
  unfolding reconcile_crd unless_deleted
  reconcile_crd-deleted def u t stamp deleted h =
      (pure-inv tt u tt t (sym (ap (λ o. unless_deleted env libs def o u) deleted) ∙ h)).1

  found_crd-IsDone :
      (name : String) (r : Result CustomResourceDefinition) (s u t : State W (Unit {0}))
      → Ends (call env (get_crd name) s) (from_result r) u
      → Returns (found_crd env libs r) u tt t
      → IsDone env libs ns name s t
  unfolding found_crd
  found_crd-IsDone name (ok def) s u t got h = elim (Option-cases def.meta.deletion_timestamp) [
    | inl kept ↦ inr (def, u, got, inr (kept, reconcile_crd-provides env libs def u t kept h))
    | inr (stamp, deleted) ↦
        inr (def, u, got, inl (stamp, deleted, reconcile_crd-deleted def u t stamp deleted h))
  ]
  found_crd-IsDone name (err e) s u t got h = elim (if-inv _ e.not_found _ u tt t h) [
    | inl (missing, it) ↦ let (_, same) = pure-inv tt u tt t it in inl (e, cc (got, same), missing)
    | inr (_, refused) ↦ absurd (fail-inv e u tt t refused)
  ]

  found_crd-IsStopped :
      (name : String) (r : Result CustomResourceDefinition) (s u : State W (Unit {0})) (x : Error)
      (t : State W (Unit {0}))
      → Ends (call env (get_crd name) s) (from_result r) u
      → FailsWith (found_crd env libs r) u x t
      → IsStopped env libs ns name s x t
  unfolding found_crd reconcile_crd
  found_crd-IsStopped name (ok def) s u x t got h =
      elim (Option-cases def.meta.deletion_timestamp) [
        | inl kept ↦
            let h' : FailsWith (unless_deleted env libs def none) u x t =
              sym (ap (λ o. unless_deleted env libs def o u) kept) ∙ h in
            inr (def, u, got, kept, reconcile_crd-fails env libs ns is_set def u x t h')
        | inr (stamp, deleted) ↦
            let h' : FailsWith (unless_deleted env libs def (some stamp)) u x t =
              sym (ap (λ o. unless_deleted env libs def o u) deleted) ∙ h in
            absurd (pure-fails tt u x t (unfold unless_deleted in h'))
      ]
  found_crd-IsStopped name (err e) s u x t got h = elim (if-fails _ e.not_found _ u x t h) [
    | inl (_, kept) ↦ absurd (pure-fails tt u x t kept)
    | inr (other, refused) ↦
        let (same, still) = fail-fails e u x t refused in
        inl (cc (got, same, still), ap (λ y. y.not_found) same ∙ other)
  ]

  reconcile_name-IsDone :
      (name : String) (s t : State W (Unit {0}))
      → Returns (reconcile_name env libs name) s tt t
      → IsDone env libs ns name s t
  unfolding reconcile_name
  reconcile_name-IsDone name s t h =
      let (found, u, got, rest) = bind-inv _ _ s tt t h in
      found_crd-IsDone name found s u t (attempt-inv _ s found u got) rest

  reconcile_name-IsStopped :
      (name : String) (s : State W (Unit {0})) (x : Error) (t : State W (Unit {0}))
      → FailsWith (reconcile_name env libs name) s x t
      → IsStopped env libs ns name s x t
  unfolding reconcile_name
  reconcile_name-IsStopped name s x t h = elim (bind-fails _ _ s x t h) [
    | inl read ↦ absurd (attempt-fails _ s x t read)
    | inr (found, u, got, rest) ↦
        found_crd-IsStopped name found s u x t (attempt-inv _ s found u got) rest
  ]

  -- The system's namespace is set. Then Reconcile, for any name, does not panic. If it returns no error,
  -- the definition is gone or is being deleted, and nothing was called but its read, or it is not being
  -- deleted and has got its config map and its service, read, updated or created. If it returns an
  -- error, no call followed the refused one, and this is why: the definition could not be read, for
  -- another reason than that it is gone, and the error is that one; or it is not being deleted, and its
  -- config map could not be read or, where it was missing, be created, with the error of that call; or
  -- with its config map there, the read by its plural name was refused, or the update of the service
  -- that has another spec, or the creation of the one that is missing, each with the error's text
  -- behind the words of the code; or there is no image annotation, which is an error of its own; or
  -- the service could not be read, for another reason than that it is missing, with that error.
  pub reconcile_name-ends :
      (name : String) (s : State W (Unit {0}))
      → (t : State W (Unit {0})) × (((reconcile_name env libs name s ≡ (returned tt, t))
            × IsDone env libs ns name s t)
          ⊎ ((x : Error) × (reconcile_name env libs name s ≡ (failed x, t))
              × IsStopped env libs ns name s x t))
  reconcile_name-ends name s =
      let t : State W (Unit {0}) = (reconcile_name env libs name s).1 in
      elim (Outcome-cases (reconcile_name env libs name s).0) [
        | inl (tt, e) ↦
            let h : Returns (reconcile_name env libs name) s tt t = ap (λ o. (o, t)) e in
            (t, inl (h, reconcile_name-IsDone name s t h))
        | inr (inl (x, e)) ↦
            let h : FailsWith (reconcile_name env libs name) s x t = ap (λ o. (o, t)) e in
            (t, inr (x, h, reconcile_name-IsStopped name s x t h))
        | inr (inr e) ↦ absurd ((reconcile_name-NeverPanics env libs ns is_set name).runs s e)
      ]
