-- ===== src/Kube/Inversion.antt =====
-- What is known of the parts of an action that has returned a value.
use knative_functions_contro.Common.{
  ◌≡◌, refl, sym, ap, ◌⊎◌, inl, inr, Bool, true, false, if◌then◌else◌, Option, none, some, Error,
  Result, ok, err, Outcome, returned, failed, panicked, from_result,
}
use knative_functions_contro.Kube.Api.{Call, Reply, Env}
use knative_functions_contro.Kube.Action.{
  State, Action, pure, fail, lift, call, deref, modify_object, ◌>>=◌, catch, attempt, go_on,
  recover, settle, actions,
}

abbrev pub Ends : {W O A : Type 0} → Outcome A × State W O → Outcome A → State W O → Type 0
Ends x o s' = x ≡ (o, s')

-- The action returns the value, and leaves the state.
abbrev pub Returns : {W O A : Type 0} → Action W O A → State W O → A → State W O → Type 0
Returns m s a s' = m s ≡ (returned a, s')

module _ {W O A B : Type 0} (m : Action W O A) (f : A → Action W O B) where
  go_on-inv :
      (r : Outcome A) (t : State W O) (b : B) (s' : State W O)
      → go_on f r t ≡ (returned b, s')
      → (a : A) × (r ≡ returned a) × Returns (f a) t b s'
  go_on-inv (returned a) t b s' h = (a, refl, h)
  go_on-inv (failed e) t b s' h = cc h
  go_on-inv panicked t b s' h = cc h

  -- Both parts of a sequence have returned.
  pub bind-inv :
      (s : State W O) (b : B) (s' : State W O)
      → Returns (m >>= f) s b s'
      → (a : A) × (t : State W O) × Returns m s a t × Returns (f a) t b s'
  unfolding actions
  bind-inv s b s' h =
      let (a, first, rest) = go_on-inv (m s).0 (m s).1 b s' h in
      (a, (m s).1, ap (λ r. (r, (m s).1)) first, rest)

module _ {W O A : Type 0} (m : Action W O A) where
  recover-inv :
      (f : Error → Error) (r : Outcome A) (t : State W O) (a : A) (s' : State W O)
      → recover (λ e. fail (f e)) r t ≡ (returned a, s')
      → Ends (r, t) (returned a) s'
  unfolding actions
  recover-inv f (returned b) t a s' h = h
  recover-inv f (failed e) t a s' h = cc h
  recover-inv f panicked t a s' h = cc h

  -- A handler that fails has not run.
  pub catch-inv :
      (f : Error → Error) (s : State W O) (a : A) (s' : State W O)
      → Returns (catch m (λ e. fail (f e))) s a s'
      → Returns m s a s'
  unfolding actions
  catch-inv f s a s' h = recover-inv f (m s).0 (m s).1 a s' h

  settle-inv :
      (o : Outcome A) (t : State W O) (r : Result A) (s' : State W O)
      → settle o t ≡ (returned r, s')
      → Ends (o, t) (from_result r) s'
  settle-inv (returned a) t (ok b) s' h = cc h
  settle-inv (returned a) t (err e) s' h = cc h
  settle-inv (failed e) t (ok b) s' h = cc h
  settle-inv (failed e) t (err x) s' h = cc h
  settle-inv panicked t r s' h = cc h

  pub attempt-inv :
      (s : State W O) (r : Result A) (s' : State W O)
      → Returns (attempt m) s r s'
      → Ends (m s) (from_result r) s'
  unfolding actions
  attempt-inv s r s' h = settle-inv (m s).0 (m s).1 r s' h

  pub if-inv :
      (b : Bool) (n : Action W O A) (s : State W O) (a : A) (s' : State W O)
      → Returns (if b then m else n) s a s'
      → ((b ≡ true) × Returns m s a s') ⊎ ((b ≡ false) × Returns n s a s')
  if-inv true n s a s' h = inl (refl, h)
  if-inv false n s a s' h = inr (refl, h)

returned-inv : {A : Type 0} (r : Result A) (a : A) → from_result r ≡ returned a → r ≡ ok a
returned-inv (ok b) a h = cc h
returned-inv (err e) a h = cc h

module _ {W O A : Type 0} where
  pub deref-inv :
      (o : Option A) (s : State W O) (a : A) (s' : State W O)
      → Returns (deref o) s a s'
      → (o ≡ some a) × (s ≡ s')
  unfolding actions
  deref-inv none s a s' h = cc h
  deref-inv (some b) s a s' h = let same : b ≡ a = cc h in (ap some same, cc h)

  pub pure-inv :
      (b : A) (s : State W O) (a : A) (s' : State W O)
      → Returns (pure b) s a s'
      → (b ≡ a) × (s ≡ s')
  unfolding actions
  pure-inv b s a s' h = (cc h, cc h)

  pub fail-inv : (e : Error) (s : State W O) (a : A) (s' : State W O) → Returns (fail e) s a s' → ⊥
  unfolding actions
  fail-inv e s a s' h = cc h

  pub lift-inv :
      (r : Result A) (s : State W O) (a : A) (s' : State W O) → Returns (lift r) s a s' → r ≡ ok a
  unfolding actions
  lift-inv r s a s' h = returned-inv r a (ap (λ q. q.0) h)

-- The environment has answered the call so, in some world.
abbrev pub IsAnswer : {W : Type 0} → Env W → (c : Call) → Reply c → Type 0
IsAnswer {W} env c r = (w : W) × (w' : W) × (env.answer c w ≡ (ok r, w'))

pub call-inv :
    {W O : Type 0} (env : Env W) (c : Call) (s : State W O) (r : Reply c) (s' : State W O)
    → Returns (call env c) s r s'
    → IsAnswer env c r
unfolding actions
call-inv env c s r s' h =
    let given = returned-inv (env.answer c s.world).0 r (ap (λ q. q.0) h) in
    (s.world, (env.answer c s.world).1, ap (λ q. (q, (env.answer c s.world).1)) given)

pub modify_object-inv :
    {W O : Type 0} (f : O → O) (s : State W O) (a : Unit {0}) (s' : State W O)
    → Returns (modify_object f) s a s'
    → s'.object ≡ f s.object
unfolding actions
modify_object-inv f s a s' h = sym (ap (λ q. q.1.object) h)
