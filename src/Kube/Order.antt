-- ===== src/Kube/Order.antt =====
-- Which calls an action makes, and in which order.
use knative_functions_contro.Common.{
  ◌≡◌, Option, none, some, List, [], ◌∷◌, ◌⊎◌, inl, inr, Error, Result, Outcome, returned, failed,
  panicked,
}
use mathlib.Core.List.{◌++◌, append-nil}
use knative_functions_contro.Kube.Api.{
  Call, get_function, update_function_status, get_route, create_route, get_service, create_service,
  update_service, get_config_map, create_config_map, update_config_map, get_crd, warning_event, Env,
}
use knative_functions_contro.Kube.Action.{
  State, Action, pure, fail, lift, deref, ◌>>=◌, ◌>>◌, catch, attempt, get_object, modify_object,
  call, tell, actions, go_on, recover, settle,
}

pub data Kind : Type 0 where
  reads_function writes_function_status reads_route creates_route reads_service creates_service :
      Kind
  updates_service reads_config_map creates_config_map updates_config_map reads_crd : Kind
  records_event : Kind

unfoldable pub kind : Call → Kind
kind (get_function _ _) = reads_function
kind (update_function_status _ _) = writes_function_status
kind (get_route _ _) = reads_route
kind (create_route _ _) = creates_route
kind (get_service _ _) = reads_service
kind (create_service _ _) = creates_service
kind (update_service _ _) = updates_service
kind (get_config_map _ _) = reads_config_map
kind (create_config_map _ _) = creates_config_map
kind (update_config_map _ _) = updates_config_map
kind (get_crd _) = reads_crd
kind (warning_event _ _ _) = records_event

-- The calls made between two logs, both with the latest call first, are some of those of the list, in
-- its order and each at most once.
pub data Made : List Kind → List Call → List Call → Type 0 where
  none_left : {before : List Call} → Made [] before before
  omitted :
      {ks : List Kind} {k : Kind} {before after : List Call}
      → Made ks before after
      → Made (k ∷ ks) before after
  made :
      {ks : List Kind} {k : Kind} {before after : List Call} (c : Call)
      → kind c ≡ k
      → Made ks before after
      → Made (k ∷ ks) before (c ∷ after)

pub Made-refl : (ks : List Kind) {cs : List Call} → Made ks cs cs
Made-refl [] = none_left
Made-refl (k ∷ ks) = omitted (Made-refl ks)

pub Made-append :
    {ks ls : List Kind} {a b c : List Call} → Made ks a b → Made ls b c → Made (ls ++ ks) a c
Made-append m none_left = m
Made-append m (omitted n) = omitted (Made-append m n)
Made-append m (made x e n) = made x e (Made-append m n)

-- However the action ends, its calls are some of those of the list, the latest first.
pub record Emits {W O A : Type 0} (ks : List Kind) (m : Action W O A) : Type 0 where
  pub at : (s : State W O) → Made ks s.calls (m s).1.calls

module _ {W O A : Type 0} (ks : List Kind) where
  pub Emits-pure : (a : A) → Emits {W = W} {O = O} ks (pure a)
  unfolding actions
  Emits-pure a = record { at = λ s. Made-refl ks }

  pub Emits-fail : (e : Error) → Emits {W = W} {O = O} {A = A} ks (fail e)
  unfolding actions
  Emits-fail e = record { at = λ s. Made-refl ks }

  pub Emits-lift : (r : Result A) → Emits {W = W} {O = O} ks (lift r)
  unfolding actions
  Emits-lift r = record { at = λ s. Made-refl ks }

  pub Emits-deref : (o : Option A) → Emits {W = W} {O = O} ks (deref o)
  unfolding actions
  Emits-deref none = record { at = λ s. Made-refl ks }
  Emits-deref (some a) = record { at = λ s. Made-refl ks }

  -- An action that makes no call on any branch.
  pub Emits-quiet : (m : Action W O A) → ((s : State W O) → (m s).1.calls ≡ s.calls) → Emits ks m
  Emits-quiet m h = record { at = λ s. rw h (Made-refl ks) }

  -- An action that makes at most one call.
  pub Emits-one :
      (k : Kind) (m : Action W O A)
      → ((s : State W O)
          → ((m s).1.calls ≡ s.calls) ⊎ ((c : Call) × (kind c ≡ k) × ((m s).1.calls ≡ c ∷ s.calls)))
      → Emits (k ∷ ks) m
  Emits-one k m h = record {
    at = λ s. elim (h s) [
      | inl e ↦ rw e (Made-refl (k ∷ ks))
      | inr (c, e, f) ↦ rw f (made c e (Made-refl ks))
    ];
  }

module _ {W O : Type 0} where
  pub Emits-modify_object : (ks : List Kind) → (f : O → O) → Emits {W = W} ks (modify_object f)
  unfolding actions
  Emits-modify_object ks f = record { at = λ s. Made-refl ks }

  pub Emits-get_object : (ks : List Kind) → Emits {W = W} {O = O} ks get_object
  unfolding actions
  Emits-get_object ks = record { at = λ s. Made-refl ks }

  pub Emits-call :
      (env : Env W) (c : Call) (k : Kind) (ks : List Kind)
      → kind c ≡ k
      → Emits {O = O} (k ∷ ks) (call env c)
  unfolding actions
  Emits-call env c k ks e = record { at = λ s. made c e (Made-refl ks) }

  pub Emits-tell :
      (env : Env W) (c : Call) (k : Kind) (ks : List Kind)
      → kind c ≡ k
      → Emits {O = O} (k ∷ ks) (tell env c)
  unfolding actions
  Emits-tell env c k ks e = record { at = λ s. made c e (Made-refl ks) }

module _ {W O A B : Type 0} where
  Made-bind :
      {ls : List Kind} {before : List Call} (r : Outcome A) (s : State W O) (f : A → Action W O B)
      → ((a : A) → Emits ls (f a))
      → (ks : List Kind) → Made ks before s.calls
      → Made (ls ++ ks) before (go_on f r s).1.calls
  Made-bind {ls} (returned a) s f kf ks m = Made-append m ((kf a).at s)
  Made-bind {ls} (failed e) s f kf ks m = Made-append m (Made-refl ls)
  Made-bind {ls} panicked s f kf ks m = Made-append m (Made-refl ls)

  pub Emits-bind :
      {ks ls : List Kind} (m : Action W O A) (f : A → Action W O B)
      → Emits ks m
      → ((a : A) → Emits ls (f a))
      → Emits (ls ++ ks) (m >>= f)
  unfolding actions
  Emits-bind {ks} m f km kf = record { at = λ s. Made-bind (m s).0 (m s).1 f kf ks (km.at s) }

module _ {W O A : Type 0} where
  Made-catch :
      {ls : List Kind} {before : List Call} (r : Outcome A) (s : State W O)
      (h : Error → Action W O A)
      → ((e : Error) → Emits ls (h e))
      → (ks : List Kind) → Made ks before s.calls
      → Made (ls ++ ks) before (recover h r s).1.calls
  Made-catch {ls} (returned a) s h kh ks m = Made-append m (Made-refl ls)
  Made-catch {ls} (failed e) s h kh ks m = Made-append m ((kh e).at s)
  Made-catch {ls} panicked s h kh ks m = Made-append m (Made-refl ls)

  pub Emits-catch :
      {ks ls : List Kind} (m : Action W O A) (h : Error → Action W O A)
      → Emits ks m
      → ((e : Error) → Emits ls (h e))
      → Emits (ls ++ ks) (catch m h)
  unfolding actions
  Emits-catch {ks} m h km kh = record { at = λ s. Made-catch (m s).0 (m s).1 h kh ks (km.at s) }

  Made-attempt :
      {ks : List Kind} {before : List Call} (r : Outcome A) (s : State W O)
      → Made ks before s.calls
      → Made ks before (settle r s).1.calls
  Made-attempt (returned a) s m = m
  Made-attempt (failed e) s m = m
  Made-attempt panicked s m = m

  pub Emits-attempt : {ks : List Kind} (m : Action W O A) → Emits ks m → Emits ks (attempt m)
  unfolding actions
  Emits-attempt m km = record { at = λ s. Made-attempt (m s).0 (m s).1 (km.at s) }

module _ {W O A B : Type 0} where
  -- A step, a handler of its failure that makes no call, and what follows.
  pub Emits-step :
      (ks ls : List Kind) (m : Action W O A) (h : Error → Action W O A) (f : A → Action W O B)
      → Emits ks m
      → ((e : Error) → Emits [] (h e))
      → ((a : A) → Emits ls (f a))
      → Emits (ls ++ ks) (catch m h >>= f)
  Emits-step ks ls m h f km kh kf =
      Emits-bind {ks = ks} {ls = ls} (catch m h) f (Emits-catch {ks = ks} {ls = []} m h km kh) kf

module _ {W O B : Type 0} where
  pub Emits-then :
      (ls : List Kind) (m : Action W O (Unit {0})) (n : Action W O B)
      → Emits [] m
      → Emits ls n
      → Emits ls (m >> n)
  Emits-then ls m n km kn =
      rw append-nil at (Emits-bind {ks = []} {ls = ls} m (λ _. n) km (λ _. kn))
