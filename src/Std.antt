-- ===== src/Std.antt =====
-- The containers of Rust's standard library that the source uses, by what they observe: ordered
-- sets and maps (also for the hashed ones, whose order no result here depends on), and sorting.
pub mod Set
pub mod Map
pub mod Sort
pub mod Count
