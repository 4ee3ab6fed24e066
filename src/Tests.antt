-- ===== src/Tests.antt =====
-- A small cluster, and what the theorems say of it.
pub mod Cluster
pub mod Naming
pub mod Children
mod Finalizing
pub mod Machines
pub mod Instances
pub mod Reconciling
mod Wires
mod Attaching
mod Serving
