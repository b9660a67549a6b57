-- ===== src/Tests/Workers.antt =====
-- Two workers that have read the same config map: one stores its entry, the other's update is refused.
use native.Mathlib.Decide.{ℕ_discrete}
use text.Mathlib.TextLemmas.{cons-eq-cons}
use knative_functions_contro.Common.{
  ℕ, zero, suc, String, ◌≡◌, refl, ap, [], ◌∷◌, some, insert, lookup, split_dots,
}
use knative_functions_contro.Kube.Objects.{ConfigMap}
use knative_functions_contro.Kube.Libraries.{raw_extension}
use knative_functions_contro.Functions.Config.{
  host_key, update_config, set_entry, put_entry, is_stale, default_config, save_config,
}
use knative_functions_contro.Kube.Action.{actions}
use knative_functions_contro.Functions.Entries.{written}
use knative_functions_contro.Functions.Tables.{table}
use knative_functions_contro.Functions.Workers.System.{
  System, idle, holds, set_worker, stamped, reads, stores, gives_up, begin, Step, Reach, here, next,
}
use knative_functions_contro.Functions.Workers.Log.{no_lost_update}
use knative_functions_contro.Functions.Workers.Remaining.{HasEntry, table-HasEntry}
use knative_functions_contro.Tests.Libraries.{
  decode, encode, hello, same_value, test_host, test_json_laws, test_libraries,
}
use knative_functions_contro.Tests.Cluster.{start, steady, test_config_map, test_env, test_route}

unfoldable pub ticks : ℕ → String
ticks zero = ""
ticks (suc n) = String.◌∷◌ "v" (ticks n)

pub ticks_injective : (m n : ℕ) → ticks m ≡ ticks n → m ≡ n
unfolding ticks
ticks_injective zero zero h = refl
ticks_injective zero (suc n) h = cc h
ticks_injective (suc m) zero h = cc h
ticks_injective (suc m) (suc n) h = ap suc (ticks_injective m n (cons-eq-cons.0 h).1)

abbrev pub seen_map : ConfigMap
seen_map = stamped (ticks 3) test_config_map

abbrev pub new_map : ConfigMap
new_map = written seen_map "{\"reply\":1}"

abbrev both_read : System
both_read = record (begin ticks test_config_map 3) {
  workers = set_worker 1 (holds seen_map) (set_worker 0 (holds seen_map) (λ i. idle));
}

-- The state behind the store of the worker 0 and the refused update of the worker 1.
abbrev one_stored : System
one_stored = record {
  server = stamped (ticks 4) new_map;
  version = 4;
  workers = set_worker 1 idle (set_worker 0 idle both_read.workers);
  log = (test_route, raw_extension hello.spec) ∷ [];
}

one_stored_reached :
    Reach test_env test_libraries "echoes" "knative-functions" ticks test_config_map 3 one_stored
unfolding update_config set_entry put_entry is_stale default_config save_config actions encode
    decode host_key insert lookup split_dots ticks ℕ_discrete
one_stored_reached =
    let both = next (next here (reads 0 refl)) (reads 1 refl) in
    next (next both (stores 0 seen_map new_map test_route (start steady hello) refl refl refl))
      (gives_up 1)

no_lost_update_example :
    table test_libraries (stamped (ticks 4) new_map) test_host
    ≡ some (test_json_laws.read_value (raw_extension hello.spec))
unfolding encode decode host_key insert lookup split_dots
no_lost_update_example =
    no_lost_update test_env test_libraries test_json_laws "echoes" "knative-functions" ticks
      ticks_injective test_config_map 3 one_stored_reached test_host

-- The worker 0 reads the config map again, and stores its entry once more.
abbrev read_again : System
read_again = record one_stored {
  workers = set_worker 0 (holds (stamped (ticks 4) new_map)) one_stored.workers;
}

abbrev stored_again : System
stored_again = record {
  server = stamped (ticks 5) (written (stamped (ticks 4) new_map) "{\"reply\":1}");
  version = 5;
  workers = set_worker 0 idle read_again.workers;
  log = (test_route, raw_extension hello.spec) ∷ one_stored.log;
}

stored_again-Step :
    Step test_env test_libraries "echoes" "knative-functions" ticks read_again stored_again
unfolding update_config set_entry put_entry is_stale default_config save_config actions encode
    decode host_key insert lookup split_dots ticks ℕ_discrete same_value
stored_again-Step =
    stores 0 (stamped (ticks 4) new_map) (written (stamped (ticks 4) new_map) "{\"reply\":1}")
      test_route (start steady hello) refl refl refl

table-HasEntry_example : HasEntry (table test_libraries stored_again.server) test_host
unfolding encode decode host_key insert lookup split_dots ticks ℕ_discrete default_config
table-HasEntry_example =
    table-HasEntry test_env test_libraries test_json_laws "echoes" "knative-functions" ticks
      ticks_injective test_config_map 3 test_host (next one_stored_reached (reads 0 refl))
      stored_again-Step (_, refl)
