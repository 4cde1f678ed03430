-- ===== src/Schemas.antt =====
-- src/vda5050_sim/schemas.py: the data of the VDA5050 protocol.
mod Enums
mod Orders
mod States
mod Messages
mod Factsheet
pub use Enums.*
pub use Orders.*
pub use States.*
pub use Messages.*
pub use Factsheet.*
