-- ===== src/Runtime.antt =====
-- agv.py: a robot's life as a sequence of messages, ticks and faults.
pub mod Sound
pub mod Messages
pub mod Instants
pub mod Traverse
pub mod Progress
pub mod Zones
pub mod Ticks
pub mod Steps
