-- ===== src/Tests.antt =====
-- Runs of the model on a small robot, and the theorems at inputs that meet their hypotheses.
pub mod Samples
pub mod OrderTests
mod TickTests
mod ActionTests
mod BatteryTests
mod ZoneTests
mod RuntimeTests
mod LogTests
mod WireTests
mod FleetTests
mod LoopTests
mod MessageTests
