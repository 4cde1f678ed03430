-- ===== src/Messages.antt =====
-- src/vda5050_sim/agv.py: the messages that a robot builds.
mod Builders
mod Calls
pub mod Counting
pub mod Headers
pub mod Reports
pub mod Identity
unfoldable pub use Builders.*
pub use Calls.*
