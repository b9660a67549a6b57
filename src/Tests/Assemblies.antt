-- ===== src/Tests/Assemblies.antt =====
-- The theorems on main, for one definition.
use knative_functions_contro.Common.{none, if◌then◌else◌, ◌≡◌, false, some, [], ◌∷◌, List}
use knative_functions_contro.Kube.Objects.{GroupVersionResource, CustomResourceDefinition}
use knative_functions_contro.Dynamic.Factory.{find, Factory}
use knative_functions_contro.Dynamic.Started.{is_some}
use knative_functions_contro.Dynamic.Context.{Context, with_informer_factory, get_informer}
use knative_functions_contro.Command.Main.{inject_all}
use knative_functions_contro.Command.Assembly.{is_requested, inject_all-get}
use knative_functions_contro.Tests.Cluster.{test_definition}

abbrev listed : List CustomResourceDefinition
listed = test_definition ∷ []

inject_all-get_example :
    (s : Context × Factory) × (inject_all listed
        (with_informer_factory 10 (record { has_factory = false; informers = [] }))
      ≡ some s)
    × ((g : GroupVersionResource) → is_some (get_informer s.0 g) ≡ is_requested listed g)
    × ((g : GroupVersionResource)
        → get_informer s.0 g ≡ (if is_requested listed g then find g s.1.informers else none))
inject_all-get_example = inject_all-get listed 10
