-- ===== src/Tests/Copies.antt =====
-- The theorems on deep copies, for a Function and a list of it in memory.
use knative_functions_contro.Common.{
  ℕ, zero, suc, List, ◌≤◌, ◌<◌, ◌≡◌, refl, ◌⊎◌, arith, Option, none, some, [], ◌∷◌,
}
use knative_functions_contro.Duck.Types.{Function, FunctionList}
use knative_functions_contro.Duck.Memory.{
  FunctionStruct, ListStruct, Cell, meta_cell, raw_cell, base_cell, addressable_cell, count_cell,
  array_cell, function_cell, list_cell, Memory, write,
}
use knative_functions_contro.Duck.DeepCopy.{function_deep_copy, list_deep_copy}
use knative_functions_contro.Duck.Contents.{function_at}
use knative_functions_contro.Duck.Isolation.{function_deep_copy-isolates}
use knative_functions_contro.Duck.SharedCount.{list_at, with_count, list_deep_copy-shares_count}
use knative_functions_contro.Tests.Libraries.{hello, test_meta}
use knative_functions_contro.Tests.Cluster.{test_address}

abbrev stored : FunctionStruct
stored = record {
  type_meta = hello.type_meta;
  meta = 1;
  spec = some 2;
  status = record { base = 3; address = some 4; url = none };
}

abbrev stored_list : ListStruct
stored_list = record {
  type_meta = record { api_version = "functions.knative.dev/v1alpha1"; kind = "EchoList" };
  meta = record {
    self_link = "";
    resource_version = "9";
    continue_token = "more";
    remaining_item_count = some 7;
  };
  items = some 6;
}

-- The cells in a row, from the address 0 on.
abbrev at_address : List Cell → ℕ → Option Cell
at_address [] p = none
at_address (c ∷ cs) zero = some c
at_address (c ∷ cs) (suc p) = at_address cs p

abbrev test_cells : ℕ → Option Cell
test_cells = at_address (
    function_cell stored
    ∷ meta_cell test_meta
    ∷ raw_cell (record { raw = "{\"reply\":1}" })
    ∷ base_cell 0 []
    ∷ addressable_cell test_address
    ∷ list_cell stored_list
    ∷ array_cell (stored ∷ [])
    ∷ count_cell 2
    ∷ [])

abbrev test_memory : Memory
test_memory = record { next = 8; cells = test_cells }

-- The Function at the address 0, and the list at the address 5.
abbrev read_function : Function
read_function = record hello { status = record (hello.status) { address = some test_address } }

abbrev read_list : FunctionList
read_list = record {
  type_meta = stored_list.type_meta;
  meta = record {
    self_link = "";
    resource_version = "9";
    continue_token = "more";
    remaining_item_count = some 2;
  };
  items = read_function ∷ [];
}

abbrev other_spec : Cell
other_spec = raw_cell (record { raw = "{}" })

function_deep_copy-isolates_example :
    (q : ℕ) × (m' : Memory) × (function_deep_copy (some 0) test_memory ≡ some (some q, m'))
    × (function_at m' q ≡ some read_function)
    × (function_at m' 0 ≡ some read_function)
    × (((2 < 8) × (function_at (write 2 other_spec m') q ≡ some read_function))
        ⊎ ((8 ≤ 2) × (function_at (write 2 other_spec m') 0 ≡ some read_function)))
function_deep_copy-isolates_example =
    function_deep_copy-isolates test_memory 0 2 stored read_function other_spec refl (omega arith)
      (omega arith, omega arith, (omega arith, omega arith, tt)) refl

list_deep_copy-shares_count_example :
    (q : ℕ) × (m' : Memory) × (list_deep_copy (some 5) test_memory ≡ some (some q, m'))
    × (list_at m' q ≡ some read_list)
    × (list_at (write 7 (count_cell 1) m') q ≡ some (with_count 1 read_list))
list_deep_copy-shares_count_example =
    list_deep_copy-shares_count test_memory 5 6 7 1 stored_list (stored ∷ []) read_list
      (record {
        source = refl;
        slice = refl;
        array = refl;
        below = ((omega arith, omega arith, (omega arith, omega arith, tt)), tt);
      })
      refl (omega arith) refl
