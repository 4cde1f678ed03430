-- ===== src/Robot.antt =====
-- src/vda5050_sim/agv.py: `RobotConfig`, the state of `SimulatedAgv` and its constructor.
mod Config
mod Version
mod State
mod Tracked
mod Scopes
mod Params
unfoldable pub use Config.*
unfoldable pub use Version.*
unfoldable pub use State.*
unfoldable pub use Tracked.*
unfoldable pub use Scopes.*
unfoldable pub use Params.*
