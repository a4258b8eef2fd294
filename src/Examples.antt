-- ===== src/Examples.antt =====
-- Concrete replicas, deltas and clocks, on which the definitions run and the theorems apply.
pub mod Parts
pub mod Services
pub mod Store
pub mod Authority
pub mod Registers
pub mod Clocks
pub mod Documents
pub mod Bundles
pub mod Nodes
pub mod Exchange
pub mod Shown
pub mod Aliases
