-- ===== src/Lib.antt =====
-- The Knative functions controller: a Kubernetes controller that runs each kind of Functions as one
-- Knative service, gives each Function a route to it, and keeps the configuration of all Functions of a
-- kind in one config map. The paths below are from the root of the repository.
--
-- The parts, and how they interact:
-- * cmd/controller/main.go lists the custom resource definitions that are labelled as kinds of
--   Functions, makes one controller for the definitions and one for each kind, and exits, to be
--   restarted, when a definition changes that it does not know. Command/Main is the assembly of the
--   controllers and the filter of the events, and Command/Program is main itself, as a function from the
--   answers of the libraries to its end and to what it starts, with its handler; Command/Assembly and
--   Command/Restart have the theorems. Command/Controllers has NewController of
--   pkg/reconciler/functions/controller.go and of pkg/reconciler/crds/controller.go, and
--   Command/Startup puts all of this together.
-- * pkg/reconciler/crds reconciles a definition: it makes the config map and the service of the kind.
--   Crds/Reconciler has Reconcile (reconcile_name), reconcile (reconcile_crd), reconcileConfig and
--   reconcileService under their names; Resources/ConfigMap and Resources/Ksvc are the functions of
--   pkg/reconciler/crds/resources. Crds/Provided is on what a reconcile without an error has done,
--   Crds/Refused, Crds/Unprovided and Crds/Endings on its errors, and Crds/Agreement and Crds/Race on both
--   reconcilers and one service. Crds/Alongside lets it run next to the workers below, call by call;
--   Crds/Behind and Crds/Repaired are on the service that the two leave.
-- * pkg/reconciler/functions reconciles a Function: it checks the service, makes the route, stores the
--   Function's spec in the config map under the route's host, puts the version of the config map into
--   the service, and publishes the address. Functions/Steps and Functions/Config are its steps, one
--   definition for each method and one for each part of a method that a proof looks at;
--   Functions/Reconciler has Reconcile (reconcile_key), reconcile (reconcile_function) and updateStatus.
--   Resources/Route is pkg/reconciler/functions/resources/route.go. Functions/Tables reads the config map
--   as a table with an entry for each host, Functions/Writes is on what reconcileConfig writes to it, and
--   Functions/Workers on workers that do so at the same time: a step relation in which each worker reads
--   the config map and later sends its update, which the server accepts just with the current version.
--   Functions/Workers/Service is the same for all of reconcile, with the service too: a worker's reconcile
--   ends with success or with an error, after which the work queue tries it again. For an update of the
--   config map that changes nothing, the server may give a new version or none. Functions/Reported has
--   what the status says of each error, Functions/Causes and Functions/ConfigCauses where it is from, and
--   Functions/Panicked why there is a panic.
--   Functions/Rewrites and Functions/Adoption are on a Function that was reconciled before.
-- * pkg/apis/duck/v1alpha1 is the type Function and the methods on its status: Duck/Types and
--   Duck/Lifecycle. Duck/DeepCopy is zz_generated.deepcopy.go on the memory of Duck/Memory, where a
--   struct's pointers, and the libraries' structs in it, are addresses of cells; Duck/Contents says what
--   a pointer reads as, and Duck/Isolation and Duck/SharedCount what a copy shares with its source.
-- * pkg/dynamic has informers and listers for resources of any kind: Dynamic/Lister and Dynamic/Shim are
--   pkg/dynamic/dynamiclister, Dynamic/Factory is pkg/dynamic/dynamicinformer, and Dynamic/Context is
--   dynamic.go and factory/factory.go. Dynamic/Started, Dynamic/Reached and Dynamic/Watched are on the
--   factories that any sequence of method calls reaches.
--
-- How the code is modelled. A reconciler is an action (Kube/Action): it takes the world, the log of the
-- calls made so far and the object behind the pointer that Go mutates, and gives these back with an
-- outcome: a value, an error or a panic. What was done before an error stays done. Every call of the API
-- server, of a lister's cache or of the event recorder is a Call (Kube/Api); an environment, a parameter,
-- answers it from the world and moves the world on, so a theorem holds for every cluster, every failure
-- and every change made by others in between. An early return is the end of an action, and the part of a
-- method behind a test is a definition of its own, by clauses on the value that is tested. A nil pointer
-- and a nil map are the `none` of an Option; a read through one, a write to one and an index out of range
-- are panics.
--
-- Libraries are parameters: the conditions of knative.dev/pkg/apis (Kube/Conditions), and the JSON codec,
-- the semantic equality and the rest in Kube/Libraries, each with what it documents as laws. Tests has
-- concrete ones, with the laws proved of them, and a concrete cluster.
--
-- No loop needs fuel: each goes over a list. A Go map that is ranged over is met in an order that is an
-- argument of the model. Kube/Order says which calls an action makes and in which order, Kube/Triple
-- what it does to the object, Kube/Inversion what its parts have done if it has returned, Kube/Failures if it
-- has failed, Kube/Panicking if it has panicked, and Kube/Panics that it cannot panic; each has one rule for each combinator.
--
-- Not modelled: logging; the shared informers, queues and event recorders of the libraries; the clients
-- that the constructors take from their context; signals; fields of Kubernetes objects that the code
-- neither reads nor sets. Texts with a formatting verb are used as format strings where the code does so,
-- and are not expanded.
pub mod Common
pub mod Kube
pub mod Duck
pub mod Resources
pub mod Functions
pub mod Crds
pub mod Dynamic
pub mod Command
pub mod Tests
