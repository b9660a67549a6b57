-- ===== src/Kube/Failures.antt =====
-- What is known of the parts of an action that has failed.
use knative_functions_contro.Common.{
  ◌≡◌, refl, ap, ◌⊎◌, inl, inr, Bool, true, false, if◌then◌else◌, Error, Outcome, Result, ok, err,
  returned, failed, panicked, from_result, Option, none, some,
}
use knative_functions_contro.Kube.Api.{Call, Env}
use knative_functions_contro.Kube.Action.{
  State, Action, pure, fail, lift, deref, get_object, modify_object, ◌>>=◌, catch, attempt, call,
  go_on, recover, settle, actions,
}
use knative_functions_contro.Kube.Inversion.{Ends, Returns}

-- The action fails with the error, and leaves the state.
abbrev pub FailsWith : {W O A : Type 0} → Action W O A → State W O → Error → State W O → Type 0
FailsWith m s x s' = m s ≡ (failed x, s')

module _ {W O A B : Type 0} (m : Action W O A) (f : A → Action W O B) where
  go_on-fails :
      (r : Outcome A) (t : State W O) (x : Error) (s' : State W O)
      → go_on f r t ≡ (failed x, s')
      → Ends (r, t) (failed x) s' ⊎ ((a : A) × (r ≡ returned a) × FailsWith (f a) t x s')
  go_on-fails (returned a) t x s' h = inr (a, refl, h)
  go_on-fails (failed e) t x s' h = inl (cc h)
  go_on-fails panicked t x s' h = cc h

  -- The first part of a sequence has failed, or else the second.
  pub bind-fails :
      (s : State W O) (x : Error) (s' : State W O)
      → FailsWith (m >>= f) s x s'
      → FailsWith m s x s' ⊎ ((a : A) × (t : State W O) × Returns m s a t × FailsWith (f a) t x s')
  unfolding actions
  bind-fails s x s' h = elim (go_on-fails (m s).0 (m s).1 x s' h) [
    | inl first ↦ inl first
    | inr (a, first, rest) ↦ inr (a, (m s).1, ap (λ r. (r, (m s).1)) first, rest)
  ]

module _ {W O A : Type 0} (m : Action W O A) where
  recover-fails :
      (f : Error → Error) (r : Outcome A) (t : State W O) (x : Error) (s' : State W O)
      → recover (λ e. fail (f e)) r t ≡ (failed x, s')
      → (e : Error) × Ends (r, t) (failed e) s' × (x ≡ f e)
  unfolding actions
  recover-fails f (returned b) t x s' h = cc h
  recover-fails f (failed e) t x s' h =
      let same : t ≡ s' = ap (λ r. r.1) h in (e, ap (λ u. (failed e, u)) same, cc h)
  recover-fails f panicked t x s' h = cc h

  -- A handler that fails has wrapped the failure.
  pub catch-fails :
      (f : Error → Error) (s : State W O) (x : Error) (s' : State W O)
      → FailsWith (catch m (λ e. fail (f e))) s x s'
      → (e : Error) × FailsWith m s e s' × (x ≡ f e)
  unfolding actions
  catch-fails f s x s' h = recover-fails f (m s).0 (m s).1 x s' h

  settle-fails :
      (o : Outcome A) (t : State W O) (x : Error) (s' : State W O) → settle o t ≡ (failed x, s') → ⊥
  settle-fails (returned a) t x s' h = cc h
  settle-fails (failed e) t x s' h = cc h
  settle-fails panicked t x s' h = cc h

  -- An error that is looked at is no failure.
  pub attempt-fails :
      (s : State W O) (x : Error) (s' : State W O) → FailsWith (attempt m) s x s' → ⊥
  unfolding actions
  attempt-fails s x s' h = settle-fails (m s).0 (m s).1 x s' h

  pub if-fails :
      (b : Bool) (n : Action W O A) (s : State W O) (x : Error) (s' : State W O)
      → FailsWith (if b then m else n) s x s'
      → ((b ≡ true) × FailsWith m s x s') ⊎ ((b ≡ false) × FailsWith n s x s')
  if-fails true n s x s' h = inl (refl, h)
  if-fails false n s x s' h = inr (refl, h)

module _ {W O A : Type 0} where
  pub pure-fails :
      (a : A) (s : State W O) (x : Error) (s' : State W O) → FailsWith (pure a) s x s' → ⊥
  unfolding actions
  pure-fails a s x s' h = cc h

  pub deref-fails :
      (o : Option A) (s : State W O) (x : Error) (s' : State W O) → FailsWith (deref o) s x s' → ⊥
  unfolding actions
  deref-fails none s x s' h = cc h
  deref-fails (some a) s x s' h = cc h

  pub fail-fails :
      (e : Error) (s : State W O) (x : Error) (s' : State W O)
      → FailsWith {A = A} (fail e) s x s'
      → (x ≡ e) × (s ≡ s')
  unfolding actions
  fail-fails e s x s' h = (cc h, cc h)

pub modify_object-fails :
    {W O : Type 0} (f : O → O) (s : State W O) (x : Error) (s' : State W O)
    → FailsWith (modify_object f) s x s'
    → ⊥
unfolding actions
modify_object-fails f s x s' h = cc h

-- The environment has refused the call with the error, in some world.
abbrev pub IsRefusal : {W : Type 0} → Env W → Call → Error → Type 0
IsRefusal {W} env c x = (w : W) × (w' : W) × (env.answer c w ≡ (err x, w'))

pub get_object-fails :
    {W O : Type 0} (s : State W O) (x : Error) (s' : State W O) → FailsWith get_object s x s' → ⊥
unfolding actions
get_object-fails s x s' h = cc h

failed-inv : {A : Type 0} (r : Result A) (x : Error) → from_result r ≡ failed x → r ≡ err x
failed-inv (ok a) x h = cc h
failed-inv (err e) x h = cc h

module _ {W O : Type 0} where
  pub lift-fails :
      {A : Type 0} (r : Result A) (s : State W O) (x : Error) (t : State W O)
      → FailsWith (lift r) s x t
      → r ≡ err x
  unfolding actions
  lift-fails r s x t h = failed-inv r x (ap (λ q. q.0) h)

  pub call-fails :
      (env : Env W) (c : Call) (s : State W O) (x : Error) (t : State W O)
      → FailsWith (call env c) s x t
      → IsRefusal env c x
  unfolding actions
  call-fails env c s x t h =
      let refused = failed-inv (env.answer c s.world).0 x (ap (λ r. r.0) h) in
      (s.world, (env.answer c s.world).1, ap (λ r. (r, (env.answer c s.world).1)) refused)
