-- ===== src/Btree.antt =====
-- lib/trees/btree.
pub mod Node
pub mod Delta
pub mod Query
pub mod Worker
pub mod Scan
pub mod Inplace
pub mod Materialize
pub mod Cow
pub mod Update
pub mod Plain
pub mod Sequence
pub mod Build
mod Examples
pub mod Leaf
pub mod Shape
pub mod Leaves
pub mod Fill
pub mod Focus
