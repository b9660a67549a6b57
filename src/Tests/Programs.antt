-- ===== src/Tests/Programs.antt =====
-- The start of the program and the restarts, for one definition.
use knative_functions_contro.Common.{
  String, ◌≡◌, refl, ◌⊎◌, false, if◌then◌else◌, Option, none, some, List, [], ◌∷◌, ok, lookup,
}
use knative_functions_contro.Kube.Objects.{
  GroupVersionResource, CustomResourceDefinition, ObjectMeta, empty_meta,
}
use knative_functions_contro.Dynamic.Factory.{DynamicClient, Factory}
use knative_functions_contro.Dynamic.Context.{Context, with_informer_factory}
use knative_functions_contro.Command.Main.{
  Constructor, assemble, crd_controller, function_controller, gvr_of, inject_all, crd_label,
  crd_filter,
}
use knative_functions_contro.Command.Assembly.{assemble-all}
use knative_functions_contro.Command.Controllers.{Controller, new_crd_controller, construct_all}
use knative_functions_contro.Command.Startup.{Serving, startup-serves}
use knative_functions_contro.Command.Program.{
  Surroundings, Exit, exits, FilteringHandler, new_handler, finishes, main,
}
use knative_functions_contro.Command.Restart.{
  IsRefused, IsListed, started, main-starts, Notice, added, deleted, updated, FilteringLaws,
  new_handler-restarts,
}
use knative_functions_contro.Tests.Cluster.{test_definition}

abbrev definitions : List CustomResourceDefinition
definitions = test_definition ∷ []

abbrev plain_client : DynamicClient (GroupVersionResource × String) String
plain_client = record { list = λ g ns options. (g, ns); watch = λ g ns options. options.text }

startup-serves_example :
    (names : List String) × (constructors : List Constructor) × (ctx : Context) × (f : Factory)
    × (controllers : List Controller) × (assemble definitions ≡ some (names, constructors))
    × (inject_all definitions
          (with_informer_factory 10 (record { has_factory = false; informers = [] }))
        ≡ some (ctx, f))
    × (construct_all constructors ctx ≡ some (new_crd_controller ctx ∷ controllers))
    × Serving plain_client f definitions controllers
startup-serves_example = startup-serves plain_client definitions 10

abbrev test_surroundings : Surroundings (Unit {0}) (Unit {0})
test_surroundings = record {
  get_config = λ master_url kubeconfig. ok tt;
  new_for_config_or_die = λ cfg. some tt;
  list_definitions = λ clientset selector. ok definitions;
  process = λ prefix. ok (record { namespace = "default" });
}

main-starts_example :
    (IsRefused test_surroundings (ok tt) × ((main test_surroundings "" "").1 ≡ []))
    ⊎ ((items : List CustomResourceDefinition) × IsListed test_surroundings (ok tt) items
        × (main test_surroundings "" "" ≡ (finishes, started items)))
main-starts_example = main-starts test_surroundings "" ""

abbrev deliver : FilteringHandler → Notice → Option Exit
deliver h (added obj) = if h.filter obj then some (h.handler.on_add obj) else none
deliver h (deleted obj) = if h.filter obj then some (h.handler.on_delete obj) else none
deliver h (updated old_obj new_obj) =
    if h.filter new_obj
    then (if h.filter old_obj
        then some (h.handler.on_update old_obj new_obj)
        else some (h.handler.on_add new_obj))
    else if h.filter old_obj
    then some (h.handler.on_delete old_obj)
    else none

deliver_laws : FilteringLaws deliver
deliver_laws = record {
  on_added = λ h obj. refl;
  on_deleted = λ h obj. refl;
  on_updated = λ h old_obj new_obj. refl;
}

-- A definition with the label that was not listed.
abbrev stranger : ObjectMeta
stranger = record empty_meta { name = "other"; labels = some ((crd_label, "true") ∷ []) }

new_handler-restarts_example :
    deliver
      (new_handler ("echoes.functions.knative.dev" ∷ []))
      (updated (some stranger) (some (record stranger { labels = none })))
    ≡ some (exits 0)
unfolding crd_filter lookup
new_handler-restarts_example =
    new_handler-restarts deliver deliver_laws definitions ("echoes.functions.knative.dev" ∷ [])
      (crd_controller ∷ function_controller (gvr_of test_definition) ∷ [])
      (updated (some stranger) (some (record stranger { labels = none })))
      (assemble-all definitions)
