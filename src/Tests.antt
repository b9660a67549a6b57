-- ===== src/Tests.antt =====
-- Concrete libraries and a concrete cluster, and the theorems at concrete inputs.
mod Conditions
mod Libraries
mod Cluster
mod Reconciles
mod Configs
mod Services
mod Statuses
mod Definitions
mod Routes
mod Informers
mod Alongside
mod Assemblies
mod Steadies
mod Workers
mod Programs
mod Copies
mod Stages
