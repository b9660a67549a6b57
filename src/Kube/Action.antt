-- ===== src/Kube/Action.antt =====
-- Actions of a reconciler: Go code that calls the environment, changes the object that it was handed
-- a pointer to, and returns, fails or panics. What was done before a failure stays done.
use knative_functions_contro.Common.{
  ◌≡◌, refl, ◌⊎◌, inl, inr, Option, none, some, List, ◌∷◌, Error, Result, ok, err, Outcome,
  returned, failed, panicked, from_result,
}
use knative_functions_contro.Kube.Api.{Call, Reply, Env}

-- The world, the calls made so far (the latest first), and the object behind the pointer.
pub record State (W O : Type 0) : Type 0 where
  pub world : W
  pub calls : List Call
  pub object : O

abbrev pub Action : Type 0 → Type 0 → Type 0 → Type 0
Action W O A = State W O → Outcome A × State W O

module _ {W O A : Type 0} where
  unfoldable pub pure : A → Action W O A
  pure a s = (returned a, s)

  -- return nil, e
  unfoldable pub fail : Error → Action W O A
  fail e s = (failed e, s)

  unfoldable pub panic : Action W O A
  panic s = (panicked, s)

  unfoldable pub lift : Result A → Action W O A
  lift r s = (from_result r, s)

  -- A dereference of a nil pointer panics.
  unfoldable pub deref : Option A → Action W O A
  deref none s = (panicked, s)
  deref (some a) s = (returned a, s)

-- What follows an action, by how it ended.
abbrev pub go_on :
    {W O A B : Type 0} → (A → Action W O B) → Outcome A → State W O → Outcome B × State W O
go_on f (returned a) s = f a s
go_on f (failed e) s = (failed e, s)
go_on f panicked s = (panicked, s)

infixl 5 ◌>>=◌ ◌>>◌
unfoldable pub ◌>>=◌ : {W O A B : Type 0} → Action W O A → (A → Action W O B) → Action W O B
◌>>=◌ m f s = go_on f (m s).0 (m s).1

abbrev pub ◌>>◌ : {W O B : Type 0} → Action W O (Unit {0}) → Action W O B → Action W O B
m >> k = m >>= λ _. k

abbrev pub recover :
    {W O A : Type 0} → (Error → Action W O A) → Outcome A → State W O → Outcome A × State W O
recover h (returned a) s = (returned a, s)
recover h (failed e) s = h e s
recover h panicked s = (panicked, s)

-- `x, err := m; if err != nil { ... }`: the handler decides how a failure goes on.
unfoldable pub catch : {W O A : Type 0} → Action W O A → (Error → Action W O A) → Action W O A
catch m h s = recover h (m s).0 (m s).1

abbrev pub settle : {W O A : Type 0} → Outcome A → State W O → Outcome (Result A) × State W O
settle (returned a) s = (returned (ok a), s)
settle (failed e) s = (returned (err e), s)
settle panicked s = (panicked, s)

-- The value and the error, for code that goes on whichever it is.
unfoldable pub attempt : {W O A : Type 0} → Action W O A → Action W O (Result A)
attempt m s = settle (m s).0 (m s).1

unfoldable pub get_object : {W O : Type 0} → Action W O O
get_object s = (returned s.object, s)

unfoldable pub modify_object : {W O : Type 0} → (O → O) → Action W O (Unit {0})
modify_object f s = (returned tt, record s { object = f s.object })

-- One call of the environment.
unfoldable pub call : {W O : Type 0} → Env W → (c : Call) → Action W O (Reply c)
call env c s =
    let (r, w) = env.answer c s.world in
    (from_result r, record s { world = w; calls = c ∷ s.calls })

-- A call whose result the code does not look at.
unfoldable pub tell : {W O : Type 0} → Env W → Call → Action W O (Unit {0})
tell env c s = (returned tt, record s { world = (env.answer c s.world).1; calls = c ∷ s.calls })

-- A name for all of them, to be named on an `unfolding` line.
unfoldable pub actions : Unit {0}
unfolding pure fail panic lift deref ◌>>=◌ catch attempt get_object modify_object call tell
actions = tt

pub Outcome-cases :
    {A : Type 0} (r : Outcome A)
    → ((a : A) × (r ≡ returned a)) ⊎ (((e : Error) × (r ≡ failed e)) ⊎ (r ≡ panicked))
Outcome-cases (returned a) = inl (a, refl)
Outcome-cases (failed e) = inr (inl (e, refl))
Outcome-cases panicked = inr (inr refl)
