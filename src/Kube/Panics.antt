-- ===== src/Kube/Panics.antt =====
-- Which actions cannot panic.
use knative_functions_contro.Common.{
  ◌≡◌, ◌≢◌, refl, Bool, true, false, if◌then◌else◌, Error, Outcome, Result, ok, err, returned,
  failed, panicked, from_result, Option, none, some,
}
use knative_functions_contro.Kube.Api.{Call, Env}
use knative_functions_contro.Kube.Action.{
  get_object, modify_object, State, Action, pure, fail, lift, deref, ◌>>=◌, catch, attempt, call,
  go_on, recover, settle, actions,
}

-- Whatever the state is.
pub record NeverPanics {W O A : Type 0} (m : Action W O A) : Type 0 where
  pub runs : (s : State W O) → (m s).0 ≢ panicked

module _ {W O A B : Type 0} (m : Action W O A) (f : A → Action W O B) where
  go_on-NeverPanics :
      (r : Outcome A) (t : State W O)
      → r ≢ panicked
      → ((a : A) → NeverPanics (f a))
      → (go_on f r t).0 ≢ panicked
  go_on-NeverPanics (returned a) t first rest = (rest a).runs t
  go_on-NeverPanics (failed e) t first rest = λ h. cc h
  go_on-NeverPanics panicked t first rest = absurd (first refl)

  pub bind-NeverPanics : NeverPanics m → ((a : A) → NeverPanics (f a)) → NeverPanics (m >>= f)
  unfolding actions
  bind-NeverPanics first rest = record {
    runs = λ s. go_on-NeverPanics (m s).0 (m s).1 (first.runs s) rest;
  }

module _ {W O A : Type 0} (m : Action W O A) where
  recover-NeverPanics :
      (f : Error → Error) (r : Outcome A) (t : State W O)
      → r ≢ panicked
      → (recover (λ e. fail (f e)) r t).0 ≢ panicked
  unfolding actions
  recover-NeverPanics f (returned a) t first = λ h. cc h
  recover-NeverPanics f (failed e) t first = λ h. cc h
  recover-NeverPanics f panicked t first = absurd (first refl)

  pub catch-NeverPanics :
      (f : Error → Error) → NeverPanics m → NeverPanics (catch m (λ e. fail (f e)))
  unfolding actions
  catch-NeverPanics f first = record {
    runs = λ s. recover-NeverPanics f (m s).0 (m s).1 (first.runs s);
  }

  settle-NeverPanics : (o : Outcome A) (t : State W O) → o ≢ panicked → (settle o t).0 ≢ panicked
  settle-NeverPanics (returned a) t first = λ h. cc h
  settle-NeverPanics (failed e) t first = λ h. cc h
  settle-NeverPanics panicked t first = absurd (first refl)

  pub attempt-NeverPanics : NeverPanics m → NeverPanics (attempt m)
  unfolding actions
  attempt-NeverPanics first = record {
    runs = λ s. settle-NeverPanics (m s).0 (m s).1 (first.runs s);
  }

  pub if-NeverPanics :
      (b : Bool) (n : Action W O A)
      → NeverPanics m
      → NeverPanics n
      → NeverPanics (if b then m else n)
  if-NeverPanics true n first second = first
  if-NeverPanics false n first second = second

from_result-NeverPanics : {A : Type 0} (r : Result A) → from_result r ≢ panicked
from_result-NeverPanics (ok a) h = cc h
from_result-NeverPanics (err e) h = cc h

module _ {W O A : Type 0} where
  pub pure-NeverPanics : (a : A) → NeverPanics {W = W} {O = O} (pure a)
  unfolding actions
  pure-NeverPanics a = record { runs = λ s h. cc h }

  pub deref-NeverPanics :
      (o : Option A) {a : A} → o ≡ some a → NeverPanics {W = W} {O = O} (deref o)
  unfolding actions
  deref-NeverPanics none h = cc h
  deref-NeverPanics (some a) h = record { runs = λ s k. cc k }

  pub fail-NeverPanics : (e : Error) → NeverPanics {W = W} {O = O} {A = A} (fail e)
  unfolding actions
  fail-NeverPanics e = record { runs = λ s h. cc h }

  pub lift-NeverPanics : (r : Result A) → NeverPanics {W = W} {O = O} (lift r)
  unfolding actions
  lift-NeverPanics r = record { runs = λ s. from_result-NeverPanics r }

pub call-NeverPanics :
    {W O : Type 0} (env : Env W) (c : Call) → NeverPanics {W = W} {O = O} (call env c)
unfolding actions
call-NeverPanics env c = record { runs = λ s. from_result-NeverPanics (env.answer c s.world).0 }

pub modify_object-NeverPanics : {W O : Type 0} (f : O → O) → NeverPanics {W = W} (modify_object f)
unfolding actions
modify_object-NeverPanics f = record { runs = λ s h. cc h }

pub get_object-NeverPanics : {W O : Type 0} → NeverPanics {W = W} {O = O} get_object
unfolding actions
get_object-NeverPanics = record { runs = λ s h. cc h }
