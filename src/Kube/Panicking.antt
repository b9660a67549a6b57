-- ===== src/Kube/Panicking.antt =====
-- What is known of the parts of an action that has panicked.
use knative_functions_contro.Common.{
  ◌≡◌, refl, ap, ◌⊎◌, inl, inr, Bool, true, false, if◌then◌else◌, Option, none, some, Error,
  Outcome, returned, failed, panicked,
}
use knative_functions_contro.Kube.Action.{
  State, Action, deref, catch, ◌>>=◌, go_on, recover, actions,
}
use knative_functions_contro.Kube.Inversion.{Ends, Returns}
use knative_functions_contro.Kube.Panics.{NeverPanics}

-- The action panics, in this state.
abbrev pub PanicsAt : {W O A : Type 0} → Action W O A → State W O → State W O → Type 0
PanicsAt m s t = m s ≡ (panicked, t)

pub NeverPanics-PanicsAt :
    {W O A : Type 0} (m : Action W O A) (s t : State W O) → NeverPanics m → PanicsAt m s t → ⊥
NeverPanics-PanicsAt m s t never h = never.runs s (ap (λ q. q.0) h)

module _ {W O A B : Type 0} (m : Action W O A) (f : A → Action W O B) where
  go_on-panics :
      (r : Outcome A) (u t : State W O)
      → go_on f r u ≡ (panicked, t)
      → Ends (r, u) panicked t ⊎ ((a : A) × (r ≡ returned a) × PanicsAt (f a) u t)
  go_on-panics (returned a) u t h = inr (a, refl, h)
  go_on-panics (failed e) u t h = cc h
  go_on-panics panicked u t h = inl (ap (λ q. (panicked, q.1)) h)

  -- The first part of a sequence has panicked, or else the second.
  pub bind-panics :
      (s t : State W O)
      → PanicsAt (m >>= f) s t
      → PanicsAt m s t ⊎ ((a : A) × (u : State W O) × Returns m s a u × PanicsAt (f a) u t)
  unfolding actions
  bind-panics s t h = elim (go_on-panics (m s).0 (m s).1 t h) [
    | inl first ↦ inl first
    | inr (a, first, rest) ↦ inr (a, (m s).1, ap (λ r. (r, (m s).1)) first, rest)
  ]

module _ {W O A : Type 0} where
  recover-panics :
      (h : Error → Action W O A) (r : Outcome A) (u t : State W O)
      → ((e : Error) → NeverPanics (h e))
      → recover h r u ≡ (panicked, t)
      → Ends (r, u) panicked t
  recover-panics h (returned a) u t never k = cc k
  recover-panics h (failed e) u t never k = absurd (NeverPanics-PanicsAt (h e) u t (never e) k)
  recover-panics h panicked u t never k = k

  -- A handler that cannot panic has not run.
  pub catch-panics :
      (m : Action W O A) (h : Error → Action W O A) (s t : State W O)
      → ((e : Error) → NeverPanics (h e))
      → PanicsAt (catch m h) s t
      → PanicsAt m s t
  unfolding actions
  catch-panics m h s t never k = recover-panics h (m s).0 (m s).1 t never k

  pub deref-panics : (o : Option A) (s t : State W O) → PanicsAt (deref o) s t → o ≡ none
  unfolding actions
  deref-panics none s t h = refl
  deref-panics (some a) s t h = cc h

  pub if-panics :
      (b : Bool) (m n : Action W O A) (s t : State W O)
      → PanicsAt (if b then m else n) s t
      → ((b ≡ true) × PanicsAt m s t) ⊎ ((b ≡ false) × PanicsAt n s t)
  if-panics true m n s t h = inl (refl, h)
  if-panics false m n s t h = inr (refl, h)
