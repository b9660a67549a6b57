-- ===== src/Tests/Stages.antt =====
-- A worker that stores its entry, and then brings the service up to the new version.
use mathlib.Core.List.{Memᴰ}
use native.Mathlib.Decide.{ℕ_discrete}
use knative_functions_contro.Common.{
  ℕ, ◌≤◌, ◌≡◌, ◌≢◌, ◌⊎◌, refl, [], ◌∷◌, insert, lookup, split_dots,
}
use knative_functions_contro.Kube.Objects.{Service}
use knative_functions_contro.Kube.Action.{actions}
use knative_functions_contro.Duck.Types.{config_map_annotation}
use knative_functions_contro.Resources.Ksvc.{make_knative_service}
use knative_functions_contro.Functions.Config.{
  host_key, update_config, set_entry, put_entry, is_stale, default_config, save_config,
}
use knative_functions_contro.Functions.Steps.{reconcile_service, save_version, with_version}
use knative_functions_contro.Functions.ServiceSync.{template_version}
use knative_functions_contro.Functions.Workers.System.{stamped}
use knative_functions_contro.Functions.Workers.Service.{
  Stage, idle, failed, checked, holds, configured, Shared, set_stage, revised, Step, checks, reads,
  stores, updates, fails, Reach, here, next,
}
use knative_functions_contro.Functions.Workers.Forward.{service-forward}
use knative_functions_contro.Functions.Workers.Owed.{IsOwing, service-caught_up}
use knative_functions_contro.Tests.Libraries.{decode, encode, hello, test_libraries}
use knative_functions_contro.Tests.Cluster.{start, steady, test_config_map, test_env, test_route}
use knative_functions_contro.Tests.Workers.{ticks, ticks_injective, seen_map, new_map}

abbrev first : Service
first = revised (ticks 5) (make_knative_service "echoes" (ticks 3) "image")

abbrev second : Service
second = with_version first (ticks 4) ((config_map_annotation, ticks 3) ∷ [])

abbrev ready_to_update : ℕ → Stage
ready_to_update =
    set_stage 0 (configured first (stamped (ticks 4) new_map))
      (set_stage 0 (holds first seen_map) (set_stage 0 (checked first) (λ i. idle)))

abbrev stored : Shared
stored = record {
  server = stamped (ticks 4) new_map;
  version = 4;
  service = first;
  revision = 5;
  past = [];
  workers = ready_to_update;
}

abbrev synced : Shared
synced = record {
  server = stamped (ticks 4) new_map;
  version = 4;
  service = revised (ticks 6) second;
  revision = 6;
  past = first ∷ [];
  workers = set_stage 0 idle ready_to_update;
}

stored_reached :
    Reach test_env test_libraries "echoes" "knative-functions" ticks "image" test_config_map 3 5
      stored
unfolding update_config set_entry put_entry is_stale default_config save_config actions encode
    decode host_key insert lookup split_dots ticks ℕ_discrete
stored_reached =
    next (next (next here (checks 0 first refl (Memᴰ.head refl))) (reads 0 first refl))
      (stores 0 first seen_map new_map test_route (start steady hello) refl refl refl)

synced-Step : Step test_env test_libraries "echoes" "knative-functions" ticks stored synced
unfolding reconcile_service save_version with_version make_knative_service actions insert lookup
    ticks ℕ_discrete
synced-Step = updates 0 first second (stamped (ticks 4) new_map) (start steady hello) refl refl refl

service-forward_example :
    (a : ℕ) × (b : ℕ) × (a ≤ 4)
    × (a ≤ b)
    × (b ≤ 4)
    × (template_version first ≡ ticks a)
    × (template_version (revised (ticks 6) second) ≡ ticks b)
service-forward_example =
    service-forward test_env test_libraries "echoes" "knative-functions" ticks ticks_injective
      "image" test_config_map 3 5 stored_reached synced-Step

-- The worker that has stored its entry fails, and its retry finds the service behind.
service-caught_up_example :
    (template_version first ≡ ticks 4)
    ⊎ ((i : ℕ) × (set_stage 0 failed ready_to_update i ≢ idle)
        × IsOwing (ticks 4) (set_stage 0 failed ready_to_update i))
service-caught_up_example =
    service-caught_up test_env test_libraries "echoes" "knative-functions" ticks ticks_injective
      "image" test_config_map 3 5 (next stored_reached (fails 0))
