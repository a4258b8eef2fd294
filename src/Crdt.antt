-- ===== src/Crdt.antt =====
-- src/core/crdt.rs: the typed fields of a document, one module to a field.
pub mod Crates
pub mod Services
pub mod Sets
pub mod Registers
