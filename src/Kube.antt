-- ===== src/Kube.antt =====
-- What the controller uses of Kubernetes and Knative: the objects, as far as the code reads or
-- writes them, the calls of the API server, and the actions made of them.
pub mod Objects
pub mod Api
pub mod Action
pub mod Order
pub mod Triple
pub mod Conditions
pub mod Libraries
pub mod Inversion
pub mod Failures
pub mod Panics
pub mod Panicking
