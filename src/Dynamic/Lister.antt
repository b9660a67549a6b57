-- ===== src/Dynamic/Lister.antt =====
-- pkg/dynamic/dynamiclister/lister.go and interface.go: the listers of unstructured objects over an
-- indexer, which is a library's: a parameter.
use Prim.Native.String.{◌++◌}
use mathlib.Core.List
use knative_functions_contro.Common.{
  String, Option, none, some, List, [], ◌∷◌, Error, Result, ok, err, Outcome, returned, failed,
  panicked,
}
use knative_functions_contro.Kube.Objects.{Unstructured, GroupVersionResource}

-- What an indexer holds: an interface{}, by its dynamic type.
pub data Item : Type 0 where
  unstructured : Unstructured → Item
  foreign : Item

-- labels.Selector, by its text
pub record Selector : Type 0 where
  pub text : String

-- cache.Indexer with cache.ListAll and cache.ListAllByNamespace: the items that are handed to the
-- callback, in this order, and then the error.
pub record Indexer : Type 0 where
  pub get_by_key : String → Result (Option Item)
  pub list_all : Selector → List Item × Option Error
  pub list_all_by_namespace : String → Selector → List Item × Option Error

-- What a List gives: a slice and an error, or a panic (`none`).
abbrev pub Listing : Type 0 → Type 0
Listing A = Option (List A × Option Error)

-- Lister and NamespaceLister of interface.go
pub record NamespaceLister : Type 0 where
  pub list : Selector → Listing Unstructured
  pub get : String → Outcome Unstructured

pub record Lister : Type 0 where
  pub list : Selector → Listing Unstructured
  pub get : String → Outcome Unstructured
  pub in_namespace : String → NamespaceLister

-- The callback of a List on each item, `ret = append(ret, m.(*unstructured.Unstructured))`: the
-- assertion panics on an item of any other type.
unfoldable pub append_all : List Unstructured → List Item → Option (List Unstructured)
append_all ret [] = some ret
append_all ret (unstructured u ∷ items) = append_all (List.◌++◌ ret (u ∷ [])) items
append_all ret (foreign ∷ items) = none

unfoldable pub collect : List Item × Option Error → Listing Unstructured
unfolding append_all
collect (items, e) = elim (append_all [] items) [ none ↦ none | some ret ↦ some (ret, e) ]

-- The body of both Get methods, by the answer of GetByKey; `missing` is errors.NewNotFound(...).
unfoldable pub check_item : Error → Result (Option Item) → Outcome Unstructured
check_item missing (err e) = failed e
check_item missing (ok none) = failed missing
check_item missing (ok (some (unstructured u))) = returned u
check_item missing (ok (some foreign)) = panicked

-- errors.NewNotFound of a group, a resource and a name is a parameter.
module _ (new_not_found : String → String → String → Error) where
  -- (*dynamicLister).Namespace, with the methods of dynamicNamespaceLister
  unfoldable pub namespace_lister : Indexer → GroupVersionResource → String → NamespaceLister
  unfolding collect check_item
  namespace_lister indexer gvr namespace = record {
    list = λ selector. collect (indexer.list_all_by_namespace namespace selector);
    get = λ name.
        check_item (new_not_found gvr.group gvr.resource name)
          (indexer.get_by_key (namespace ++ "/" ++ name));
  }

  -- New, with the methods of dynamicLister
  unfoldable pub new_lister : Indexer → GroupVersionResource → Lister
  unfolding namespace_lister
  new_lister indexer gvr = record {
    list = λ selector. collect (indexer.list_all selector);
    get = λ name. check_item (new_not_found gvr.group gvr.resource name) (indexer.get_by_key name);
    in_namespace = namespace_lister indexer gvr;
  }
