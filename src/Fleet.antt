-- ===== src/Fleet.antt =====
-- src/vda5050_sim/fleet.py: the runtime of a robot, and the fleet.
mod Runtime
mod Loops
mod Group
mod Loading
pub mod Told
pub mod Rounds
mod Lives
pub mod Refines
pub mod Keeps
pub mod Online
pub mod Announced
pub mod Heartbeats
pub mod Members
pub mod Closing
pub mod Channels
pub mod Wiring
pub mod Speeds
pub mod Loaded
pub mod Asleep
unfoldable pub use Runtime.*
unfoldable pub use Loops.*
unfoldable pub use Group.*
unfoldable pub use Loading.*
