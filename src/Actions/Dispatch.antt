-- ===== src/Actions/Dispatch.antt =====
-- agv.py: `_handle_instant_action`, its guards and its branches, and `_finish_cancel`.
use vda5050_sim.Prelude.{
  ℕ, String, string_eq, ◌<>◌, Bool, true, false, not, ◌&&◌, Option, none, some, List, [], ◌∷◌, ◌==◌,
  if◌then◌else◌, lookup, is_some, modify_first,
}
use mathlib.Core.Option
use vda5050_sim.Floats.{Float}
use vda5050_sim.Schemas.{Action, ActionState, ActionStatus, ActionScope}
use vda5050_sim.Robot.{
  Agv, has_id, same_status, set_status, modify_tracked, append_instant_state, in_scope, params_of,
  true_param, str, version_tuple, lt_version, legacy_unsupported_actions, show_version,
}
use vda5050_sim.Maps.{reject_instant_action, start_download_map, start_download_zone_set}
use vda5050_sim.Actions.Effects.{clear_terminal_instants, clear_terminal_zones}
use vda5050_sim.Actions.Instants.{
  InstantKind, cancel_order, start_pause, stop_pause, factsheet_request, state_request, log_report,
  clear_instant_actions, clear_zone_actions, start_hibernation, stop_hibernation, shutdown, retry,
  skip_retry, trigger, download_map, download_zone_set, other, instant_kind, pause_or_resume,
  answer, find_tracked_action_state, oldest_running_wait_for_trigger, release_oldest,
  clear_active_order, handle_cancel, handle_retry, handle_skip_retry, handle_shutdown,
  start_download, handle_other_instant,
}

module _ {R : Type 0} ⦃fl : Float R⦄ where
  abbrev no_trigger : Action R → Agv R → Agv R
  no_trigger action s =
      reject_instant_action action "validationError" "no waitForTrigger action is currently waiting"
        s

  abbrev pub trigger_oldest : Action R → Agv R → Agv R
  trigger_oldest action s =
      if is_some (oldest_running_wait_for_trigger s)
      then answer action (release_oldest s)
      else no_trigger action s

  abbrev trigger_named : Action R → String → Agv R → Agv R
  trigger_named action action_id s =
      if is_some (find_tracked_action_state action_id s)
      then answer action (modify_tracked (has_id action_id) (set_status ActionStatus.finished) s)
      else trigger_oldest action s

  unfoldable pub handle_trigger : Action R → Agv R → Agv R
  handle_trigger action s = elim (true_param (params_of action) "actionId") [
    | none ↦ trigger_oldest action s
    | some v ↦ trigger_named action (str v) s
  ]

  unfoldable pub handle_start_hibernation : Action R → Agv R → Agv R
  handle_start_hibernation action s =
      let s1 = clear_active_order s in
      answer action (record s1 {
        mode = record s1.mode {
          hibernating = true;
          wake_up_at = Option.map str (true_param (params_of action) "wakeUpTime");
        };
      })

  -- `stamp` is the text of `_now()` with its colons replaced, which names a log file.
  unfoldable pub dispatch_instant : String → InstantKind → Action R → Agv R → Agv R
  dispatch_instant stamp cancel_order action s = handle_cancel action s
  dispatch_instant stamp start_pause action s =
      answer action (pause_or_resume true (record s { mode = record s.mode { paused = true } }))
  dispatch_instant stamp stop_pause action s =
      answer action (pause_or_resume false (record s { mode = record s.mode { paused = false } }))
  dispatch_instant stamp factsheet_request action s =
      answer action (record s { mode = record s.mode { factsheet_requested = true } })
  dispatch_instant stamp state_request action s = answer action (record s {
    mode = record s.mode { state_request_event = Option.map (λ _. true) s.state_request_event };
  })
  dispatch_instant stamp log_report action s =
      append_instant_state action ActionStatus.finished
        (some ("log_" <> s.serial_number <> "_" <> stamp <> ".txt")) s
  dispatch_instant stamp clear_instant_actions action s = answer action (clear_terminal_instants s)
  dispatch_instant stamp clear_zone_actions action s = answer action (clear_terminal_zones s)
  dispatch_instant stamp start_hibernation action s = handle_start_hibernation action s
  dispatch_instant stamp stop_hibernation action s =
      answer action (record s { mode = record s.mode { hibernating = false; wake_up_at = none } })
  dispatch_instant stamp shutdown action s = handle_shutdown action s
  dispatch_instant stamp retry action s = handle_retry action s
  dispatch_instant stamp skip_retry action s = handle_skip_retry action s
  dispatch_instant stamp trigger action s = handle_trigger action s
  dispatch_instant stamp download_map action s = start_download action (start_download_map action s)
  dispatch_instant stamp download_zone_set action s =
      start_download action (start_download_zone_set action s)
  dispatch_instant stamp other action s = handle_other_instant action s

  -- The least version that has the action, if the robot announces an older one.
  unfoldable pub missing_version : Action R → Agv R → Option (ℕ × ℕ)
  missing_version action s = elim (lookup action.action_type legacy_unsupported_actions) [
    | none ↦ none
    | some least ↦
        if lt_version (version_tuple s.cfg.protocol_version) least then some least else none
  ]

  unfoldable pub handle_instant_action : String → Action R → Agv R → Agv R
  handle_instant_action stamp action s = elim (missing_version action s) [
    | some least ↦
        reject_instant_action action "invalidInstantAction"
          ("'" <> action.action_type <> "' requires VDA5050 " <> show_version least <> "+") s
    | none ↦
        if s.hibernating && not (action.action_type == "stopHibernation")
        then s
        else if not (in_scope ActionScope.instant action.action_type)
        then reject_instant_action action "validationError"
            ("'" <> action.action_type <> "' is not an INSTANT-scoped action") s
        else dispatch_instant stamp (instant_kind action.action_type) action s
  ]

  unfoldable pub handle_instant_actions : String → List (Action R) → Agv R → Agv R
  handle_instant_actions stamp [] s = s
  handle_instant_actions stamp (action ∷ actions) s =
      handle_instant_actions stamp actions (handle_instant_action stamp action s)

-- s.actionId == aid and s.actionStatus == RUNNING
abbrev pub is_cancel : Option String → ActionState → Bool
is_cancel none st = false
is_cancel (some action_id) st =
    st.action_id == action_id && same_status st.action_status ActionStatus.running

module _ {R : Type 0} where
  unfoldable pub finish_cancel : Agv R → Agv R
  finish_cancel s =
      let s1 = record s {
        tracking = record s.tracking {
          instant_action_states =
              modify_first (is_cancel s.cancel_requested_action_id)
                (set_status ActionStatus.finished) s.instant_action_states;
        };
      } in
      let s2 = clear_active_order s1 in
      record s2 { tracking = record s2.tracking { cancel_requested_action_id = none } }
