-- ===== src/Conctrl.antt =====
-- lib/conctrl.
pub mod Retired
pub mod Reclamation
pub mod Epoch
pub mod Mpsc
mod Examples
