-- ===== src/Wire.antt =====
-- src/vda5050_sim/legacy_shapes.py: messages as JSON, and their shapes before version 3.0.
mod Values
mod Legacy
mod Parts
mod Shapes
pub mod RoundTrip
pub mod Connection
pub use Values.*
unfoldable pub use Legacy.*
