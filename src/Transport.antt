-- ===== src/Transport.antt =====
-- src/vda5050_sim/transport.py: messages on the wire, over MQTT or NATS.
mod Payload
mod Mqtt
mod Nats
mod Factory
pub mod Isolation
mod Stamps
pub mod Versions
unfoldable pub use Payload.*
unfoldable pub use Mqtt.*
unfoldable pub use Nats.*
unfoldable pub use Factory.*
