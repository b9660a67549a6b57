-- ===== src/Kube/Triple.antt =====
-- What holds of the object behind the pointer when an action ends, by how it ends. The environment
-- may answer in any way, so nothing is said of the world.
use knative_functions_contro.Common.{
  ◌≡◌, refl, Bool, true, false, if◌then◌else◌, Error, Outcome, returned, failed, panicked,
}
use knative_functions_contro.Kube.Action.{
  State, Action, pure, fail, ◌>>=◌, ◌>>◌, catch, modify_object, actions, go_on, recover,
}

-- `Q` after a return, `E` after a failure; a panic takes the process down.
abbrev pub Post :
    {W O A : Type 0} → (A → O → Type 0) → (Error → O → Type 0) → Outcome A × State W O → Type 0
Post Q E (returned a, s) = Q a s.object
Post Q E (failed e, s) = E e s.object
Post Q E (panicked, s) = Unit

pub record Triple {W O A : Type 0} (P : O → Type 0) (m : Action W O A) (Q : A → O → Type 0)
    (E : Error → O → Type 0) : Type 0 where
  pub at : (s : State W O) → P s.object → Post Q E (m s)

module _ {W O A B : Type 0} {E : Error → O → Type 0} where
  Post-go_on :
      {Q : A → O → Type 0} {R : B → O → Type 0} (f : A → Action W O B)
      → ((a : A) → Triple (Q a) (f a) R E)
      → (r : Outcome A) (s : State W O) → Post Q E (r, s)
      → Post R E (go_on f r s)
  Post-go_on f tf (returned a) s h = (tf a).at s h
  Post-go_on f tf (failed e) s h = h
  Post-go_on f tf panicked s h = tt

  -- The rule of a sequence.
  pub Triple-bind :
      {P : O → Type 0} {Q : A → O → Type 0} {R : B → O → Type 0} (m : Action W O A)
      (f : A → Action W O B)
      → Triple P m Q E
      → ((a : A) → Triple (Q a) (f a) R E)
      → Triple P (m >>= f) R E
  unfolding actions
  Triple-bind m f tm tf = record { at = λ s h. Post-go_on f tf (m s).0 (m s).1 (tm.at s h) }

module _ {W O A : Type 0} {Q : A → O → Type 0} {E F : Error → O → Type 0} where
  Post-recover :
      (h : Error → Action W O A)
      → ((e : Error) → Triple (F e) (h e) Q E)
      → (r : Outcome A) (s : State W O) → Post Q F (r, s)
      → Post Q E (recover h r s)
  Post-recover h th (returned a) s p = p
  Post-recover h th (failed e) s p = (th e).at s p
  Post-recover h th panicked s p = tt

  -- The rule of a handler.
  pub Triple-catch :
      {P : O → Type 0} (m : Action W O A) (h : Error → Action W O A)
      → Triple P m Q F
      → ((e : Error) → Triple (F e) (h e) Q E)
      → Triple P (catch m h) Q E
  unfolding actions
  Triple-catch m h tm th = record { at = λ s p. Post-recover h th (m s).0 (m s).1 (tm.at s p) }

module _ {W O A : Type 0} where
  Post-keeps :
      (Q : A → O → Type 0) (E : Error → O → Type 0) (r : Outcome A) (s : State W O)
      → ((a : A) → r ≡ returned a → Q a s.object)
      → ((e : Error) → r ≡ failed e → E e s.object)
      → Post Q E (r, s)
  Post-keeps Q E (returned a) s q e = q a refl
  Post-keeps Q E (failed x) s q e = e x refl
  Post-keeps Q E panicked s q e = tt

  -- An action that leaves the object alone keeps what held of it.
  pub Triple-keeps :
      {P : O → Type 0} (m : Action W O A)
      → ((s : State W O) → (m s).1.object ≡ s.object)
      → Triple P m (λ _. P) (λ _. P)
  Triple-keeps {P} m same = record {
    at = λ s p. Post-keeps (λ _. P) (λ _. P) (m s).0 (m s).1 (λ a _. rw same p) (λ e _. rw same p);
  }

module _ {W O A : Type 0} {P : O → Type 0} {Q : A → O → Type 0} {E : Error → O → Type 0} where
  pub Triple-pure : (a : A) → ((o : O) → P o → Q a o) → Triple {W = W} P (pure a) Q E
  unfolding actions
  Triple-pure a h = record { at = λ s p. h s.object p }

  pub Triple-fail : (e : Error) → ((o : O) → P o → E e o) → Triple {W = W} P (fail e) Q E
  unfolding actions
  Triple-fail e h = record { at = λ s p. h s.object p }

  pub Triple-if :
      (b : Bool) (m n : Action W O A)
      → (b ≡ true → Triple P m Q E)
      → (b ≡ false → Triple P n Q E)
      → Triple P (if b then m else n) Q E
  Triple-if true m n tm tn = tm refl
  Triple-if false m n tm tn = tn refl

  -- A weaker start and a stronger end.
  pub Triple-weaken :
      {P' : O → Type 0} {Q' : A → O → Type 0} {E' : Error → O → Type 0} (m : Action W O A)
      → Triple P' m Q' E'
      → ((o : O) → P o → P' o)
      → ((a : A) (o : O) → Q' a o → Q a o)
      → ((e : Error) (o : O) → E' e o → E e o)
      → Triple P m Q E
  Triple-weaken {Q'} {E'} m t hp hq he = record {
    at = λ s p. Post-weaken (m s).0 (m s).1 (t.at s (hp s.object p));
  }
    where
      Post-weaken : (r : Outcome A) (s : State W O) → Post Q' E' (r, s) → Post Q E (r, s)
      Post-weaken (returned a) s q = hq a s.object q
      Post-weaken (failed e) s q = he e s.object q
      Post-weaken panicked s q = tt

module _ {W O A : Type 0} {P : O → Type 0} {Q : A → O → Type 0} {E : Error → O → Type 0} where
  -- A change of the object, and what follows.
  pub Triple-modify :
      {P' : O → Type 0} (f : O → O) (n : Action W O A)
      → ((o : O) → P o → P' (f o))
      → Triple P' n Q E
      → Triple P (modify_object f >> n) Q E
  unfolding actions
  Triple-modify f n h tn = record {
    at = λ s p. tn.at (record s { object = f s.object }) (h s.object p);
  }

module _ {W O : Type 0} {P : O → Type 0} {Q : Unit {0} → O → Type 0} {E : Error → O → Type 0} where
  pub Triple-modify_last :
      (f : O → O) → ((o : O) → P o → Q tt (f o)) → Triple {W = W} P (modify_object f) Q E
  unfolding actions
  Triple-modify_last f h = record { at = λ s p. h s.object p }
