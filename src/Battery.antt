-- ===== src/Battery.antt =====
-- agv.py: the charge of the battery.
pub mod Kept
pub mod Bounds
pub mod Ticks
