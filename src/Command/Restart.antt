-- ===== src/Command/Restart.antt =====
-- What main of cmd/controller/main.go starts, and when its handler restarts the program.
use mathlib.Core.List
use knative_functions_contro.Common.{
  String, ◌≡◌, refl, ap, ◌∙◌, arith, ◌⊎◌, inl, inr, Bool, false, not, ◌&&◌, ◌||◌, if◌then◌else◌,
  Option, none, some, List, [], ◌∷◌, map, Error, Result, ok, err, Result-cases, Option-cases,
}
use knative_functions_contro.Kube.Objects.{CustomResourceDefinition, ObjectMeta}
use knative_functions_contro.Command.Main.{
  Constructor, crd_controller, function_controller, gvr_of, assemble, restart_filter, crd_filter,
}
use knative_functions_contro.Command.Assembly.{assemble-all, is_loaded, restart_filter-assembled}
use knative_functions_contro.Command.Program.{
  Surroundings, EnvConfig, Exit, exits, FilteringHandler, new_handler, restart_resource_handler,
  Effect, registers_informer, adds_handler, runs_crd_informer, runs_controllers, finishes,
  register_all, processed, run_all, listed, connected, configured, main,
}

register_all-map :
    (items : List CustomResourceDefinition)
    → register_all items ≡ map (λ crd. registers_informer (gvr_of crd)) items
unfolding register_all
register_all-map [] = refl
register_all-map (crd ∷ items) =
    ap (λ es. registers_informer (gvr_of crd) ∷ es) (register_all-map items)

-- All that main does, for the definitions that were listed.
abbrev pub started : List CustomResourceDefinition → List Effect
started items = List.◌++◌ (map (λ crd. registers_informer (gvr_of crd)) items) (
    adds_handler (new_handler (map (λ crd. crd.meta.name) items))
    ∷ runs_crd_informer
    ∷ runs_controllers "controller"
        (crd_controller ∷ map (λ crd. function_controller (gvr_of crd)) items)
    ∷ [])

module _ {Config Clientset : Type 0} (lib : Surroundings Config Clientset) where
  -- An answer that main needs is an error, or the client cannot be made.
  abbrev pub IsRefused : Result Config → Type 0
  IsRefused (err e) = Unit
  IsRefused (ok cfg) =
      (lib.new_for_config_or_die cfg ≡ none)
      ⊎ ((clientset : Clientset) × (e : Error) × (lib.new_for_config_or_die cfg ≡ some clientset)
          × ((lib.list_definitions clientset "functions.knative.dev/crd=true" ≡ err e)
              ⊎ (lib.process "" ≡ err e)))

  -- Every answer is there, the definitions among them.
  abbrev pub IsListed : Result Config → List CustomResourceDefinition → Type 0
  IsListed (err e) items = ⊥
  IsListed (ok cfg) items =
      (clientset : Clientset) × (env : EnvConfig) × (lib.new_for_config_or_die cfg ≡ some clientset)
      × (lib.list_definitions clientset "functions.knative.dev/crd=true" ≡ ok items)
      × (lib.process "" ≡ ok env)

  abbrev Ended : Result Config → Type 0
  Ended r =
      (IsRefused r × ((configured lib r).1 ≡ []))
      ⊎ ((items : List CustomResourceDefinition) × IsListed r items
          × (configured lib r ≡ (finishes, started items)))

  run_all-assembled :
      (items : List CustomResourceDefinition)
      → run_all items (assemble items) ≡ (finishes, started items)
  unfolding run_all
  run_all-assembled items = rw (assemble-all items, register_all-map items) refl

  configured-Ended : (r : Result Config) → Ended r
  unfolding configured connected listed processed
  configured-Ended (err e) = inl (tt, refl)
  configured-Ended (ok cfg) = elim (Option-cases (lib.new_for_config_or_die cfg)) [
    | inl died ↦ inl (inl died, rw died refl)
    | inr (c, made) ↦
        elim (Result-cases (lib.list_definitions c "functions.knative.dev/crd=true")) [
          | inr (e, bad) ↦ inl (inr (c, e, made, inl bad), rw (made, bad) refl)
          | inl (items, got) ↦ elim (Result-cases (lib.process "")) [
            | inr (e, bad) ↦ inl (inr (c, e, made, inr bad), rw (made, got, bad) refl)
            | inl (env, set) ↦
                inr (items, (c, env, made, got, set), rw (made, got, set) (run_all-assembled items))
          ]
        ]
  ]

  -- Either the kubeconfig, the list of the definitions or the environment is refused, or the client
  -- cannot be made, and then main starts nothing; or main goes on to its end, and what it has done is,
  -- for the definitions listed: the informer of each definition's resource is registered, in the
  -- order of the list; the handler with the definitions' names is added to the informer of the
  -- definitions, which is run; and then the controllers are run, the one for the definitions and one
  -- for each definition's resource.
  pub main-starts :
      (master_url kubeconfig : String)
      → (IsRefused (lib.get_config master_url kubeconfig)
          × ((main lib master_url kubeconfig).1 ≡ []))
        ⊎ ((items : List CustomResourceDefinition) × IsListed
              (lib.get_config master_url kubeconfig)
              items
            × (main lib master_url kubeconfig ≡ (finishes, started items)))
  unfolding main
  main-starts master_url kubeconfig = configured-Ended (lib.get_config master_url kubeconfig)

-- An event of an informer, with the metadata of its objects.
pub data Notice : Type 0 where
  added deleted : Option ObjectMeta → Notice
  updated : (old_obj new_obj : Option ObjectMeta) → Notice

-- cache.FilteringResourceEventHandler: an object that begins to pass the filter with an update counts
-- as added, and one that no longer passes it as deleted.
pub record FilteringLaws (deliver : FilteringHandler → Notice → Option Exit) : Type 0 where
  pub on_added :
      (h : FilteringHandler) (obj : Option ObjectMeta)
      → deliver h (added obj) ≡ (if h.filter obj then some (h.handler.on_add obj) else none)
  pub on_deleted :
      (h : FilteringHandler) (obj : Option ObjectMeta)
      → deliver h (deleted obj) ≡ (if h.filter obj then some (h.handler.on_delete obj) else none)
  pub on_updated :
      (h : FilteringHandler) (old_obj new_obj : Option ObjectMeta)
      → deliver h (updated old_obj new_obj) ≡ (
          if h.filter new_obj
          then (if h.filter old_obj
              then some (h.handler.on_update old_obj new_obj)
              else some (h.handler.on_add new_obj))
          else if h.filter old_obj
          then some (h.handler.on_delete old_obj)
          else none)

-- Whether an object of the event satisfies the test.
abbrev pub concerns : (Option ObjectMeta → Bool) → Notice → Bool
concerns p (added obj) = p obj
concerns p (deleted obj) = p obj
concerns p (updated old_obj new_obj) = p old_obj || p new_obj

-- An object with the label, and not of the name of a definition that was listed.
abbrev pub is_unknown : List CustomResourceDefinition → Option ObjectMeta → Bool
is_unknown items none = false
is_unknown items (some object) = crd_filter (some object) && not (is_loaded items object.name)

module _ (deliver : FilteringHandler → Notice → Option Exit) (laws : FilteringLaws deliver)
    (items : List CustomResourceDefinition) (names : List String)
    (controllers : List Constructor) where
  filter-is_unknown :
      (object : Option ObjectMeta)
      → assemble items ≡ some (names, controllers)
      → (new_handler names).filter object ≡ is_unknown items object
  unfolding new_handler restart_filter
  filter-is_unknown none h = refl
  filter-is_unknown (some object) h = restart_filter-assembled items names controllers object h

  -- With the handler that main made from the definitions listed at the start, an event of the
  -- definitions' informer ends the program, with the exit code 0, just if an object of the event, for
  -- an update the old one or the new one, carries the label of the definitions and has the name of
  -- none that was listed. Every other event is passed over.
  pub new_handler-restarts :
      (notice : Notice)
      → assemble items ≡ some (names, controllers)
      → deliver (new_handler names) notice
        ≡ (if concerns (is_unknown items) notice then some (exits 0) else none)
  unfolding restart_resource_handler
  new_handler-restarts (added obj) h =
      laws.on_added _ obj ∙ rw (filter-is_unknown obj h) (unfold new_handler in refl)
  new_handler-restarts (deleted obj) h =
      laws.on_deleted _ obj ∙ rw (filter-is_unknown obj h) (unfold new_handler in refl)
  new_handler-restarts (updated old_obj new_obj) h =
      laws.on_updated _ old_obj new_obj
      ∙ rw (filter-is_unknown old_obj h, filter-is_unknown new_obj h)
          (unfold new_handler in ground arith)
