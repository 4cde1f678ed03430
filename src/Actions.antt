-- ===== src/Actions.antt =====
-- src/vda5050_sim/agv.py: the progress of actions, and instant actions.
mod Effects
mod Progress
mod Instants
mod Dispatch
pub mod Replies
pub mod Answers
pub mod MapEffects
pub mod Statuses
pub mod Transitions
unfoldable pub use Effects.*
unfoldable pub use Progress.*
unfoldable pub use Dispatch.*
unfoldable pub use Instants.{
  flip_all, pause_or_resume, find_tracked_action_state, register_timer_instant,
  oldest_running_wait_for_trigger, release_oldest, clear_active_order, handle_cancel, handle_retry,
  handle_skip_retry, handle_shutdown, handle_other_instant, instant_kind,
}
pub use Instants.{
  InstantKind, timer_instant_actions, flip_status, answer, waits_for_trigger, not_retriable,
  start_download,
}
