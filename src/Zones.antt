-- ===== src/Zones.antt =====
-- src/vda5050_sim/agv.py: zones, access requests and their leases.
mod Geometry
mod Requests
mod Gates
mod Presence
pub mod Safety
pub mod Passage
pub mod Leases
pub mod Responses
pub mod Frame
unfoldable pub use Geometry.*
unfoldable pub use Requests.*
unfoldable pub use Gates.*
unfoldable pub use Presence.*
