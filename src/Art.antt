-- ===== src/Art.antt =====
-- lib/trees/art.
pub mod Key
pub mod Index
pub mod Node
pub mod Tree
pub mod Cow
pub mod Scan
mod Examples
